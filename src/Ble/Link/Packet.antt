-- ===== src/Ble/Link/Packet.antt =====
-- Packets of ble_packet_handler.c between a sender and a receiver, one and many.
use mathlib.Core.Path.{subst}
use mathlib.Core.List.{map-append}
use minimal_watch_firmware_e.Base.{
  ℕ, ◌+◌, ◌*◌, ◌≤◌, ◌<◌, ◌≡◌, ◌∙◌, refl, sym, ap, inl, inr, Bool, true, false, some, List, [], ◌∷◌,
  ◌++◌, map, append-nil, append_assoc, arith, Bool-cases, some_inj, length, tail, if◌then◌else◌,
  ◌==◌,
}
use minimal_watch_firmware_e.Ring.Queue
use minimal_watch_firmware_e.Ring.Queue.{push_all-append}
use minimal_watch_firmware_e.Ring.Refine.{contents}
use minimal_watch_firmware_e.Ble.Message.{Msg, max_payload_size, fifo_size, Content, content}
use minimal_watch_firmware_e.Ble.Fifo
use minimal_watch_firmware_e.Ble.Fifo.{Fifos, ble_tx}
use minimal_watch_firmware_e.Ble.Fifo.Laws.{IsReady, add_tx_refines}
use minimal_watch_firmware_e.Ble.Tx.{TxCtx, build_next_packet}
use minimal_watch_firmware_e.Ble.Tx.Loading.{IsOk, pending}
use minimal_watch_firmware_e.Ble.Tx.Builds.{Builds, Builds-Built}
use minimal_watch_firmware_e.Ble.Tx.Total.{flag, build_next_packet-Builds}
use minimal_watch_firmware_e.Ble.Tx
use minimal_watch_firmware_e.Ble.Rx
use minimal_watch_firmware_e.Ble.Rx.Rounds
use minimal_watch_firmware_e.Ble.Rx.{
  RxState, RxCtx, wait_magic, on_flag, parse_loop, retrieve_packet,
}
use minimal_watch_firmware_e.Ble.Link.{Synced, received}
use minimal_watch_firmware_e.Ble.Link.Step.{InStep, outside, midway, NotCut}
use minimal_watch_firmware_e.Ble.Link.Deliver.{Builds-Delivers}

-- The continuation flag brings the receiver in step.
on_flag-InStep : (t : TxCtx) (r : RxCtx) → Synced t r → InStep t (on_flag (flag t) r)
on_flag-InStep t r (inl b) = elim (Bool-cases t.msg_active) [
  | inl busy ↦ simp (busy, b.idle) (outside b.unsent refl refl)
  | inr idle ↦ simp idle (outside b.unsent refl refl)
]
on_flag-InStep t r (inr (a, h, y)) = simp (a, y.active) (midway a h y)

InStep-Synced : {t : TxCtx} {r : RxCtx} → InStep t r → Synced t r
InStep-Synced (outside u s d) = inl (record { unsent = u; idle = d })
InStep-Synced (midway a h y) = inr (a, h, y)

-- The same facts about a packet as `Builds`, from the call that built it.
module _ {mtu : ℕ} {t t' : TxCtx} {q q' : Fifos} {done : Bool} {pkt : List ℕ} (m : mtu < 65536)
    (v : IsOk t) (w : IsReady q)
    (built : build_next_packet true mtu t q ≡ some (done, pkt, t', q')) where
  pub packet_Builds : (bytes : List ℕ) × (pkt ≡ flag t ∷ bytes) × Builds mtu 1 t q bytes t' q'
  packet_Builds =
      let (bytes, t1, q1, e, b) = build_next_packet-Builds mtu t q m v w in
      let same = some_inj (sym e ∙ built) in
      (
        bytes,
        sym (ap (λ (x : Bool × List ℕ × TxCtx × Fifos). x.1) same),
        subst (λ (x : Bool × List ℕ × TxCtx × Fifos). Builds mtu 1 t q bytes x.2 x.3) same b,
      )

-- What the parser makes of a packet.
pub record Arrived (t : TxCtx) (q p : Fifos) (t' : TxCtx) (q' : Fifos) (r' : RxCtx) (p' : Fifos)
    (ms : List Content) : Type 0 where
  pub synced : Synced t' r'
  pub ready : IsReady p'
  pub sent : pending t q ≡ ms ++ pending t' q'
  pub queued : received p' ≡ Queue.push_all fifo_size (received p) ms

pub packet_delivers :
    (mtu : ℕ) (t t' : TxCtx) (q q' : Fifos) (r : RxCtx) (p : Fifos) (done : Bool) (pkt : List ℕ)
    → mtu < 65536
    → IsOk t
    → IsReady q
    → IsReady p
    → Synced t r
    → build_next_packet true mtu t q ≡ some (done, pkt, t', q')
    → NotCut t' (length pkt) mtu
    → (r' : RxCtx) × (p' : Fifos) × (ms : List Content) × (retrieve_packet (some pkt) r p
        ≡ some (r', p'))
      × Arrived t q p t' q' r' p' ms
unfolding retrieve_packet
packet_delivers mtu t t' q q' r p done pkt m v w x y built c =
    let (bytes, e, b) = packet_Builds m v w built in
    let (r', p', ms, run, d) =
      Builds-Delivers m v (λ a z. omega (arith, c a z, ap length e)) b (on_flag (flag t) r) p
        (2 * length bytes + 2) (omega arith) (on_flag-InStep t r y) x in
    (
      r',
      p',
      ms,
      ap (λ k. retrieve_packet (some k) r p) e ∙ run,
      record { synced = InStep-Synced d.synced; ready = d.ready; sent = d.sent; queued = d.queued },
    )

-- A history of the two ends: the sender queues a message while there is room for it, or sends a
-- packet. `said` are the messages queued.
pub data History (t : TxCtx) (q : Fifos) (r : RxCtx) (p : Fifos)
    : TxCtx → Fifos → RxCtx → Fifos → List Content → Type 0 where
  start : History t q r p t q r p []
  queues :
      {t1 : TxCtx} {q1 q2 : Fifos} {r1 : RxCtx} {p1 : Fifos} {said all : List Content} (m : Msg)
      → History t q r p t1 q1 r1 p1 said
      → length (contents q1.tx_fifo) < fifo_size
      → m.hdr.len ≤ max_payload_size
      → Fifo.add_msg (some m) ble_tx q1 ≡ some (true, q2)
      → all ≡ said ++ (content m ∷ [])
      → History t q r p t1 q2 r1 p1 all
  sends :
      {t1 t2 : TxCtx} {q1 q2 : Fifos} {r1 r2 : RxCtx} {p1 p2 : Fifos} {said : List Content}
      {done : Bool} {pkt : List ℕ} (mtu : ℕ)
      → History t q r p t1 q1 r1 p1 said
      → mtu < 65536
      → build_next_packet true mtu t1 q1 ≡ some (done, pkt, t2, q2)
      → NotCut t2 (length pkt) mtu
      → retrieve_packet (some pkt) r1 p1 ≡ some (r2, p2)
      → History t q r p t2 q2 r2 p2 said

record Kept (t : TxCtx) (q p : Fifos) (t' : TxCtx) (q' : Fifos) (r' : RxCtx) (p' : Fifos)
    (said ms : List Content) : Type 0 where
  ok : IsOk t'
  tx_ready : IsReady q'
  rx_ready : IsReady p'
  synced : Synced t' r'
  sent : pending t q ++ said ≡ ms ++ pending t' q'
  queued : received p' ≡ Queue.push_all fifo_size (received p) ms

lt→eqb : (a b : ℕ) → a < b → (a == b) ≡ false
lt→eqb a b h = ground arith

pending-push :
    (q q' : Fifos) (t : TxCtx) (m : Msg)
    → length (contents q.tx_fifo) < fifo_size
    → contents q'.tx_fifo ≡ Queue.push_oldest fifo_size (contents q.tx_fifo) m
    → pending t q' ≡ pending t q ++ (content m ∷ [])
unfolding Queue.push_oldest
pending-push q q' t m room c =
    let here : List Content = if t.msg_active then content t.cur_msg ∷ [] else [] in
    let added : contents q'.tx_fifo ≡ contents q.tx_fifo ++ (m ∷ []) =
      c
      ∙ ap (λ b. (if b then tail (contents q.tx_fifo) else contents q.tx_fifo) ++ (m ∷ []))
          (lt→eqb _ _ room) in
    ap (λ l. here ++ map content l) added
    ∙ ap (λ l. here ++ l) (map-append content (contents q.tx_fifo) (m ∷ []))
    ∙ sym (append_assoc here (map content (contents q.tx_fifo)) (content m ∷ []))

History-Kept :
    {t : TxCtx} {q : Fifos} {r : RxCtx} {p : Fifos} {t' : TxCtx} {q' : Fifos} {r' : RxCtx}
    {p' : Fifos} {said : List Content}
    → IsOk t
    → IsReady q
    → IsReady p
    → Synced t r
    → History t q r p t' q' r' p' said
    → (ms : List Content) × Kept t q p t' q' r' p' said ms
unfolding Queue.push_all
History-Kept {t} {q} v w x y start = (
  [],
  record {
    ok = v;
    tx_ready = w;
    rx_ready = x;
    synced = y;
    sent = append-nil (pending t q);
    queued = refl;
  },
)
History-Kept {t} {q} {t' = t'} {q' = q'} v w x y
      (queues {q1 = q1} {said = said} m h room short e all) =
    let (ms, k) = History-Kept v w x y h in
    let (q2, e2, ready, _, c) = add_tx_refines m k.tx_ready short in
    let same : q2 ≡ q' = ap (λ (z : Bool × Fifos). z.1) (some_inj (sym e2 ∙ e)) in
    (
      ms,
      record {
        ok = k.ok;
        tx_ready = subst IsReady same ready;
        rx_ready = k.rx_ready;
        synced = k.synced;
        sent =
            ap (λ z. pending t q ++ z) all
            ∙ sym (append_assoc (pending t q) said (content m ∷ []))
            ∙ ap (λ z. z ++ (content m ∷ [])) k.sent
            ∙ append_assoc ms (pending t' q1) (content m ∷ [])
            ∙ ap (λ z. ms ++ z)
                (sym (pending-push q1 q' t' m room (ap (λ z. contents z.tx_fifo) (sym same) ∙ c)));
        queued = k.queued;
      },
    )
History-Kept {t} {q} {p = p} v w x y
      (sends {t1 = t1} {t2 = t2} {q1 = q1} {q2 = q2} {r1 = r1} {r2 = r2} {p1 = p1} {p2 = p2}
        {said = said} {done = done} {pkt = pkt} mtu h m e c run) =
    let (ms, k) = History-Kept v w x y h in
    let (r3, p3, more, run3, d) =
      packet_delivers mtu t1 t2 q1 q2 r1 p1 done pkt m k.ok k.tx_ready k.rx_ready k.synced e c in
    let same = some_inj (sym run3 ∙ run) in
    let (bytes, f, b) = packet_Builds m k.ok k.tx_ready e in
    let built = Builds-Built m k.ok k.tx_ready b in
    let d' : Arrived t1 q1 p1 t2 q2 r2 p2 more =
      subst (λ (z : RxCtx × Fifos). Arrived t1 q1 p1 t2 q2 z.0 z.1 more) same d in
    (
      ms ++ more,
      record {
        ok = built.ok;
        tx_ready = built.ready;
        rx_ready = d'.ready;
        synced = d'.synced;
        sent = k.sent ∙ ap (λ z. ms ++ z) d'.sent ∙ sym (append_assoc ms more (pending t2 q2));
        queued =
            d'.queued
            ∙ ap (λ z. Queue.push_all fifo_size z more) k.queued
            ∙ sym (push_all-append fifo_size (received p) ms more);
      },
    )

-- From any two ends in step, after any history of messages queued (while the queue has room) and
-- packets sent and taken in, none of which ends just behind a header: there are messages `ms` such
-- that what was waiting at first, followed by what was queued, is `ms` followed by what still waits,
-- and the receiver's queue has taken in exactly `ms`. So the messages arrive in the order in which
-- they were queued, with their headers and payloads, and none is lost, doubled or made up.
pub History-delivers :
    (t t' : TxCtx) (q q' : Fifos) (r r' : RxCtx) (p p' : Fifos) (said : List Content)
    → IsOk t
    → IsReady q
    → IsReady p
    → Synced t r
    → History t q r p t' q' r' p' said
    → (ms : List Content) × (pending t q ++ said ≡ ms ++ pending t' q')
      × (received p' ≡ Queue.push_all fifo_size (received p) ms)
      × Synced t' r'
History-delivers t t' q q' r r' p p' said v w x y h =
    let (ms, k) = History-Kept v w x y h in (ms, k.sent, k.queued, k.synced)

-- After `tx_reset_context` and `rx_reset_context`, from any states, both ends keep their invariants
-- and are in step: the sender is between messages and has sent no byte, the receiver looks for a
-- message.
pub reset-Synced :
    (t : TxCtx) (r : RxCtx)
    → IsOk (Tx.reset_context t)
      × Rx.Rounds.IsOk (Rx.reset_context r)
      × Synced (Tx.reset_context t) (Rx.reset_context r)
unfolding Tx.reset_context Rx.reset_context
reset-Synced t r = (
  record { short = λ a. absurd (cc); inside = λ a. absurd (cc) },
  record { idle = λ _. refl; busy = λ x. cc; inside = λ x. absurd (cc); short = λ x. absurd (cc) },
  inl (record { unsent = inl refl; idle = refl }),
)
