-- ===== src/Ble/Link/Deliver.antt =====
-- What a packet of `ble_build_next_packet` does in `ble_retrieve_packet`.
use mathlib.Core.Path.{subst}
use minimal_watch_firmware_e.Base.{
  ℕ, zero, suc, ◌+◌, ◌*◌, ◌<◌, ◌≡◌, ◌≢◌, ◌∙◌, refl, sym, ap, ap₂, inl, inr, Bool, true, false, some,
  List, [], ◌++◌, append-nil, append_assoc, arith, Bool-cases, length, length-append, u16,
}
use minimal_watch_firmware_e.Ring.Queue
use minimal_watch_firmware_e.Ring.Queue.{push_all-append}
use minimal_watch_firmware_e.Ble.Message.{fifo_size, Content}
use minimal_watch_firmware_e.Ble.Fifo.{Fifos}
use minimal_watch_firmware_e.Ble.Fifo.Laws.{IsReady}
use minimal_watch_firmware_e.Ble.Tx
use minimal_watch_firmware_e.Ble.Tx.{
  TxCtx, header, header_part, emitted, advanced, no_room, build_next_packet,
}
use minimal_watch_firmware_e.Ble.Tx.Loading.{IsOk, Loaded, pending, chunk_lem}
use minimal_watch_firmware_e.Ble.Tx.Builds.{
  Builds, full, nothing, cramped, fills, more, length-emitted, advanced-IsOk,
}
use minimal_watch_firmware_e.Ble.Rx.{RxCtx, parse_loop}
use minimal_watch_firmware_e.Ble.Link.{received}
use minimal_watch_firmware_e.Ble.Link.Step.{
  InStep, outside, midway, Delivers, NotCut, round-Arrives,
}

-- Loading a message changes nothing for the receiver.
InStep-load :
    {t t1 : TxCtx} {q q1 : Fifos} {found : Bool} {r : RxCtx}
    → Loaded t q found t1 q1
    → InStep t r
    → InStep t1 r
InStep-load {r = r} l (midway a h y) = subst (λ x. InStep x r) (sym (l.same a)) (midway a h y)
InStep-load {t} {found = found} {r = r} l (outside u s d) = elim (Bool-cases t.msg_active) [
  | inl busy ↦ subst (λ x. InStep x r) (sym (l.same busy)) (outside u s d)
  | inr idle ↦ elim (Bool-cases found) [
    | inl e ↦ outside (inr (l.fresh idle e)) s d
    | inr e ↦ outside (inl (l.active ∙ e)) s d
  ]
]

parse_end : (fuel : ℕ) (r : RxCtx) (p : Fifos) → 0 < fuel → parse_loop fuel [] r p ≡ some (r, p)
unfolding parse_loop
parse_end zero r p h = absurd (omega arith)
parse_end (suc fuel) r p h = refl

no_message :
    {t t' : TxCtx} {q q' : Fifos} {found : Bool} (r : RxCtx) (p : Fifos) (fuel : ℕ)
    → 0 < fuel
    → Loaded t q found t' q'
    → InStep t r
    → IsReady p
    → (r' : RxCtx) × (p' : Fifos) × (ms : List Content) × (parse_loop fuel [] r p ≡ some (r', p'))
      × Delivers t q p t' q' r' p' ms
unfolding Queue.push_all
no_message r p fuel f l y w = (
  r,
  p,
  [],
  parse_end fuel r p f,
  record { synced = InStep-load l y; ready = w; sent = sym l.kept; queued = refl },
)

-- In the last round, a header with nothing behind it is what `NotCut` excludes.
uncut_at_end :
    (mtu i : ℕ) (t t' : TxCtx)
    → t.msg_active ≡ true
    → NotCut t' mtu mtu
    → t' ≡ advanced (Tx.chunk mtu i t) t
    → t.offset ≡ 0
    → t.cur_msg.hdr.len ≢ 0
    → Tx.chunk mtu i t ≢ 0
uncut_at_end mtu i t t' a c e z k n0 =
    let none_out : u16 (t.offset + Tx.chunk mtu i t) ≡ 0 = ap₂ (λ x y. u16 (x + y)) z n0 in
    let c' = subst (λ x. NotCut x mtu mtu) e c in
    absurd (ground (arith, c' (ground (arith, none_out)) none_out))

uncut_before_end :
    (mtu i : ℕ) (t : TxCtx)
    → IsOk t
    → t.msg_active ≡ true
    → mtu < 65536
    → i < mtu
    → no_room mtu i t ≡ false
    → i + length (emitted mtu i t) < mtu
    → t.offset ≡ 0
    → t.cur_msg.hdr.len ≢ 0
    → Tx.chunk mtu i t ≢ 0
uncut_before_end mtu i t v a m h room e z k n0 =
    absurd (omega (arith, chunk_lem mtu i t v a m h room, length-emitted mtu i t v a m h room))

-- Every way through the loop of the builder, in the parser.
pub Builds-Delivers :
    {mtu i : ℕ} {t t' : TxCtx} {q q' : Fifos} {bytes : List ℕ}
    → mtu < 65536
    → IsOk t
    → NotCut t' (i + length bytes) mtu
    → Builds mtu i t q bytes t' q'
    → (r : RxCtx) (p : Fifos) (fuel : ℕ) → 2 * length bytes < fuel
    → InStep t r
    → IsReady p
    → (r' : RxCtx) × (p' : Fifos) × (ms : List Content) × (parse_loop fuel bytes r p
        ≡ some (r', p'))
      × Delivers t q p t' q' r' p' ms
unfolding Queue.push_all
Builds-Delivers {t = t} m v c (full h) r p fuel f y w =
    (r, p, [], parse_end fuel r p f, record { synced = y; ready = w; sent = refl; queued = refl })
Builds-Delivers m v c (nothing h l) r p fuel f y w = no_message r p fuel f l y w
Builds-Delivers m v c (cramped h l tight) r p fuel f y w = no_message r p fuel f l y w
Builds-Delivers {mtu} {i} {t} {t'} {q} {q'} m v c (fills {t1 = t1} h l room e b a) r p fuel f y w =
    let c' : NotCut t' mtu mtu = subst (λ n. NotCut t' n mtu) (ap (λ x. i + length x) b ∙ e) c in
    let (fuel', r', p', ms, less, run, d) =
      round-Arrives mtu i t1 q' p [] l.ok l.active m h room (inl refl)
        (uncut_at_end mtu i t1 t' l.active c' a) w r fuel (ground (arith, b)) (InStep-load l y) in
    (
      r',
      p',
      ms,
      ap (λ x. parse_loop fuel x r p) (b ∙ sym (append-nil (emitted mtu i t1)))
          ∙ run
          ∙ parse_end fuel' r' p' (ground (arith, less, b)),
      record {
        synced = subst (λ x. InStep x r') (sym a) d.synced;
        ready = d.ready;
        sent = sym l.kept ∙ d.sent ∙ ap (λ x. ms ++ pending x q') (sym a);
        queued = d.queued;
      },
    )
Builds-Delivers {mtu} {i} {t} {t'} {q} {q'} m v c
      (more {t1 = t1} {q1 = q1} {rest = rest} h l room e b d) r p fuel f y w =
    let len = length-append (emitted mtu i t1) rest in
    let size = ap length b ∙ len in
    let (fuel', r1, p1, ms1, less, run, d1) =
      round-Arrives mtu i t1 q1 p rest l.ok l.active m h room (inr e)
        (uncut_before_end mtu i t1 l.ok l.active m h room e) w r fuel (omega (arith, size))
        (InStep-load l y) in
    let (r2, p2, ms2, run2, d2) =
      Builds-Delivers m (advanced-IsOk mtu i t1 l.ok l.active m h room)
        (λ a z. omega (arith, c a z, size)) d r1 p1 fuel' (omega (arith, size, less)) d1.synced
        d1.ready in
    (
      r2,
      p2,
      ms1 ++ ms2,
      ap (λ x. parse_loop fuel x r p) b ∙ run ∙ run2,
      record {
        synced = d2.synced;
        ready = d2.ready;
        sent = sym l.kept ∙ d1.sent ∙ ap (λ x. ms1 ++ x) d2.sent ∙ sym (append_assoc ms1 ms2 _);
        queued =
            d2.queued
            ∙ ap (λ x. Queue.push_all fifo_size x ms2) d1.queued
            ∙ sym (push_all-append fifo_size (received p) ms1 ms2);
      },
    )
