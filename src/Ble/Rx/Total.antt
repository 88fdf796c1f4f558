-- ===== src/Ble/Rx/Total.antt =====
-- `ble_retrieve_packet` returns on every packet, keeps the parser's invariant and stays inside the
-- payload array.
use minimal_watch_firmware_e.Base.{
  ℕ, zero, suc, ◌+◌, ◌-◌, ◌*◌, ◌≤◌, ◌<◌, ◌≡◌, ◌∙◌, refl, inl, inr, false, Option, none, some, List,
  [], ◌∷◌, arith, Bool-cases, ltb, leb, le→ltb, length, take, drop, length-take, length-drop,
  copy_behind, min, ◌==◌,
}
use minimal_watch_firmware_e.Ble.Message.{max_payload_size}
use minimal_watch_firmware_e.Ble.Fifo.{Fifos}
use minimal_watch_firmware_e.Ble.Fifo.Laws.{IsReady}
use minimal_watch_firmware_e.Ble.Rx.{
  RxState, wait_magic, read_header, read_payload, RxCtx, on_read_payload, dispatch, parse_loop,
  on_flag, retrieve_packet, chunk, filled,
}
use minimal_watch_firmware_e.Ble.Rx.Rounds.{
  Fine, Inside, IsOk, IsOk-waiting, Returns, finish-Fine, read_header-Fine, wait_magic-Fine, weight,
}

-- A chunk is neither longer than what the message lacks nor than what the packet has.
pub chunk_lem :
    (r : RxCtx) (bs : List ℕ)
    → r.offset < r.cur_msg.hdr.len
    → r.cur_msg.hdr.len ≤ max_payload_size
    → chunk r bs ≡ min (r.cur_msg.hdr.len - r.offset) (length bs)
chunk_lem r bs h k = ground arith

-- The chunk is copied inside the payload array.
filled-Inside :
    (r : RxCtx) (bs : List ℕ)
    → r.offset < r.cur_msg.hdr.len
    → r.cur_msg.hdr.len ≤ max_payload_size
    → Inside r (filled r bs)
filled-Inside r bs h k j p =
    copy_behind r.cur_msg.payload r.offset j (take (chunk r bs) bs)
      (omega (arith, length-take (chunk r bs) bs, chunk_lem r bs h k))

read_payload-Fine :
    (b : ℕ) (bs : List ℕ) (r : RxCtx) (q : Fifos)
    → r.state ≡ read_payload
    → IsOk r
    → IsReady q
    → Returns (on_read_payload (b ∷ bs) r q) (Fine (b ∷ bs) r q)
unfolding on_read_payload
read_payload-Fine b bs r q s v w =
    let h : r.offset < r.cur_msg.hdr.len = v.inside s in
    let k : r.cur_msg.hdr.len ≤ max_payload_size = v.short s in
    let c = chunk_lem r (b ∷ bs) h k in
    let fits : ltb r.cur_msg.hdr.len r.offset ≡ false = le→ltb _ _ (omega arith) in
    let lost = length-drop (chunk r (b ∷ bs)) (b ∷ bs) in
    elim (Bool-cases (leb r.cur_msg.hdr.len (filled r (b ∷ bs)).offset)) [
      | inl all_there ↦
          rw (fits, all_there)
            (finish-Fine (b ∷ bs) (drop (chunk r (b ∷ bs)) (b ∷ bs)) r (filled r (b ∷ bs)) q k
              (filled-Inside r (b ∷ bs) h k) (rw (s, weight) (omega (arith, lost))) w)
      | inr lacking ↦ (
        record {
          returned = false;
          rest = drop (chunk r (b ∷ bs)) (b ∷ bs);
          ctx = filled r (b ∷ bs);
          fifos = q;
        },
        rw (fits, lacking),
        record {
          ok = record {
            idle = λ n. absurd (n s);
            busy = v.busy;
            inside = λ _. ground arith;
            short = λ _. k;
          };
          inside = filled-Inside r (b ∷ bs) h k;
          ready = w;
          tx_kept = refl;
          falls = λ _. rw (s, weight) (ground (arith, lost, c));
        },
      )
    ]

dispatch-Fine :
    (s : RxState) (b : ℕ) (bs : List ℕ) (r : RxCtx) (q : Fifos)
    → r.state ≡ s
    → IsOk r
    → IsReady q
    → Returns (dispatch s b bs r q) (Fine (b ∷ bs) r q)
dispatch-Fine wait_magic b bs r q s v w = wait_magic-Fine b bs r q s v w
dispatch-Fine read_header b bs r q s v w = read_header-Fine r q (b ∷ bs) s v w
dispatch-Fine read_payload b bs r q s v w = read_payload-Fine b bs r q s v w

-- What parsing guarantees, from the state `r` and the queues `q` to `r'` and `q'`.
pub record Parsed (r : RxCtx) (q : Fifos) (r' : RxCtx) (q' : Fifos) : Type 0 where
  pub ok : IsOk r'
  pub inside : Inside r r'
  pub ready : IsReady q'
  pub tx_kept : q'.tx_fifo ≡ q.tx_fifo

parse_loop-Parsed :
    (fuel : ℕ) (bs : List ℕ) (r : RxCtx) (q : Fifos)
    → weight bs r.state < fuel
    → IsOk r
    → IsReady q
    → (r' : RxCtx) × (q' : Fifos) × (parse_loop fuel bs r q ≡ some (r', q')) × Parsed r q r' q'
unfolding parse_loop
parse_loop-Parsed zero bs r q h v w = absurd (omega arith)
parse_loop-Parsed (suc fuel) [] r q h v w =
    (r, q, refl, record { ok = v; inside = λ j _. refl; ready = w; tx_kept = refl })
parse_loop-Parsed (suc fuel) (b ∷ bs) r q h v w =
    let (o, e, f) = dispatch-Fine r.state b bs r q refl v w in
    elim (Bool-cases o.returned) [
      | inl stop ↦ (
        o.ctx,
        o.fifos,
        rw (e, stop),
        record { ok = f.ok; inside = f.inside; ready = f.ready; tx_kept = f.tx_kept },
      )
      | inr more ↦
          let (r', q', e', p) =
            parse_loop-Parsed fuel o.rest o.ctx o.fifos (omega (arith, f.falls more)) f.ok
              f.ready in
          (
            r',
            q',
            rw (e, more) e',
            record {
              ok = p.ok;
              inside = λ j k. p.inside j k ∙ f.inside j k;
              ready = p.ready;
              tx_kept = p.tx_kept ∙ f.tx_kept;
            },
          )
    ]

on_flag-IsOk : (flag : ℕ) (r : RxCtx) → IsOk r → IsOk (on_flag flag r)
on_flag-IsOk flag r v = elim (Bool-cases (flag == 0)) [
  | inl start ↦ rw start (IsOk-waiting _ refl refl)
  | inr cont ↦ elim (Bool-cases r.msg_active) [
    | inl busy ↦ simp (cont, busy) v
    | inr idle ↦ simp (cont, idle) (IsOk-waiting _ refl refl)
  ]
]

on_flag-Inside : (flag : ℕ) (r : RxCtx) → Inside r (on_flag flag r)
on_flag-Inside flag r j k = ground arith

weight-le : (bs : List ℕ) (s : RxState) → weight bs s < 2 * length bs + 2
weight-le bs wait_magic = omega arith
weight-le bs read_header = omega arith
weight-le bs read_payload = omega arith

-- On every packet, however wrong, `ble_retrieve_packet` returns without a failed assertion. It keeps
-- the parser's invariant, which holds after a reset, and the queues ready (so that no message is
-- queued with a length above the payload's size), writes nothing behind the payload array and leaves
-- the queue of messages to send alone.
pub retrieve_packet-Parsed :
    (pkt : Option (List ℕ)) (r : RxCtx) (q : Fifos)
    → IsOk r
    → IsReady q
    → (r' : RxCtx) × (q' : Fifos) × (retrieve_packet pkt r q ≡ some (r', q')) × Parsed r q r' q'
unfolding retrieve_packet
retrieve_packet-Parsed none r q v w =
    (r, q, refl, record { ok = v; inside = λ j _. refl; ready = w; tx_kept = refl })
retrieve_packet-Parsed (some []) r q v w =
    (r, q, refl, record { ok = v; inside = λ j _. refl; ready = w; tx_kept = refl })
retrieve_packet-Parsed (some (flag ∷ bs)) r q v w =
    let (r', q', e, p) =
      parse_loop-Parsed (2 * length bs + 2) bs (on_flag flag r) q
        (weight-le bs (on_flag flag r).state) (on_flag-IsOk flag r v) w in
    (
      r',
      q',
      e,
      record {
        ok = p.ok;
        inside = λ j k. p.inside j k ∙ on_flag-Inside flag r j k;
        ready = p.ready;
        tx_kept = p.tx_kept;
      },
    )
