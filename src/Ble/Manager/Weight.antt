-- ===== src/Ble/Manager/Weight.antt =====
-- How much waits to be sent: every packet with room for a byte behind a header takes some of it away.
use minimal_watch_firmware_e.Base.{
  ℕ, ◌+◌, ◌-◌, ◌*◌, ◌≤◌, ◌<◌, ◌≡◌, ◌∙◌, refl, sym, ap, ap₂, ◌⊎◌, inl, inr, Bool, true, false, not,
  ◌&&◌, List, [], ◌∷◌, map, arith, ℕ_discrete, min, Bool-cases, leb, ◌==◌, if◌then◌else◌, length,
  length-append, u16,
}
use minimal_watch_firmware_e.Ring.Refine.{contents, length-contents}
use minimal_watch_firmware_e.Ble.Message.{Msg, fifo_size, Content, content}
use minimal_watch_firmware_e.Ble.Fifo.{Fifos}
use minimal_watch_firmware_e.Ble.Fifo.Laws.{IsReady, AllShort}
use minimal_watch_firmware_e.Ble.Tx.{TxCtx, chunk, emitted, advanced, no_room, header_part}
use minimal_watch_firmware_e.Ble.Tx.Loading.{IsOk, Loaded, pending, chunk_lem}
use minimal_watch_firmware_e.Ble.Tx.Builds.{
  Builds, full, nothing, cramped, fills, more, advanced-IsOk, emitted_bounds,
}
use minimal_watch_firmware_e.Ble.Manager.{tx_rounds}

-- A message counts for its bytes and one more.
total : List Content → ℕ
total [] = 0
total (c ∷ cs) = 1 + c.0.len + total cs

-- What of the first message is out.
out : TxCtx → ℕ
out t = if t.msg_active && not (t.offset == 0) then 1 + t.offset else 0

-- What waits to be sent.
pub weight : TxCtx → Fifos → ℕ
weight t q = total (pending t q) - out t

waiting : Fifos → ℕ
waiting q = total (map content (contents q.tx_fifo))

weight_busy :
    (t : TxCtx) (q : Fifos)
    → t.msg_active ≡ true
    → weight t q ≡ (1 + t.cur_msg.hdr.len + waiting q) - (if t.offset == 0 then 0 else 1 + t.offset)
unfolding weight out waiting total
weight_busy t q a = rw a (ground arith)

weight_quiet : (t : TxCtx) (q : Fifos) → t.msg_active ≡ false → weight t q ≡ waiting q
unfolding weight out waiting
weight_quiet t q a = rw a (omega arith)

out_fresh : (t : TxCtx) → t.offset ≡ 0 → out t ≡ 0
unfolding out
out_fresh t e = ground (arith, e)

out_idle : (t : TxCtx) → t.msg_active ≡ false → out t ≡ 0
unfolding out
out_idle t e = rw e

Loaded-weight :
    {t t1 : TxCtx} {q q1 : Fifos} {found : Bool}
    → Loaded t q found t1 q1
    → weight t1 q1 ≡ weight t q
unfolding weight
Loaded-weight {t} {t1} {q} {q1} {found} l = elim (Bool-cases t.msg_active) [
  | inl busy ↦ ap₂ (λ p o. total p - o) l.kept (ap out (l.same busy))
  | inr idle ↦
      ap₂ (λ p o. total p - o) l.kept
        (elim (Bool-cases found) [
          | inl some_left ↦ out_fresh t1 (l.fresh idle some_left) ∙ sym (out_idle t idle)
          | inr none_left ↦ out_idle t1 (l.active ∙ none_left) ∙ sym (out_idle t idle)
        ])
]

-- A chunk of `n` bytes.
cut-weight :
    (n : ℕ) (t : TxCtx) (q : Fifos)
    → IsOk t
    → t.msg_active ≡ true
    → t.offset + n ≤ t.cur_msg.hdr.len
    → (weight (advanced n t) q ≤ weight t q)
      × ((0 < n) ⊎ (t.cur_msg.hdr.len ≡ 0) → weight (advanced n t) q < weight t q)
cut-weight n t q v a h =
    let before = weight_busy t q a in
    let short = v.short a in
    elim (Bool-cases (leb t.cur_msg.hdr.len (u16 (t.offset + n)))) [
      | inl all ↦
          let after = weight_quiet (advanced n t) q (rw all) in
          let less : weight (advanced n t) q < weight t q =
            ground (arith, before, after, v.inside a) in
          (omega (arith, less), λ _. less)
      | inr part ↦
          let after = weight_busy (advanced n t) q (rw part a) in
          (
            ground (arith, before, after, short, v.inside a),
            λ why. elim why [
              | inl pos ↦ ground (arith, before, after, short, v.inside a, pos)
              | inr empty ↦ absurd (ground (arith, part, empty))
            ],
          )
    ]

-- A round takes nothing back, and takes something away if there is room for a byte behind the header.
advanced-weight :
    (mtu i : ℕ) (t : TxCtx) (q : Fifos)
    → IsOk t
    → t.msg_active ≡ true
    → mtu < 65536
    → i < mtu
    → no_room mtu i t ≡ false
    → (weight (advanced (chunk mtu i t) t) q ≤ weight t q)
      × (i + 4 < mtu → weight (advanced (chunk mtu i t) t) q < weight t q)
advanced-weight mtu i t q v a m h room = takes_off (chunk mtu i t) (chunk_lem mtu i t v a m h room)
  where
    takes_off :
        (n : ℕ)
        → n ≡ min (t.cur_msg.hdr.len - t.offset) (mtu - (i + length (header_part t)))
        → (weight (advanced n t) q ≤ weight t q)
          × (i + 4 < mtu → weight (advanced n t) q < weight t q)
    takes_off n e =
        let (less, fewer) = cut-weight n t q v a (ground (arith, e, v.inside a)) in
        (
          less,
          λ space. fewer (elim (ℕ_discrete t.cur_msg.hdr.len 0) [
            | yes empty ↦ inr empty
            | no bytes ↦ inl (ground (arith, e, v.inside a, space, bytes))
          ]),
        )

pub Builds-weight :
    {mtu i : ℕ} {t t' : TxCtx} {q q' : Fifos} {bytes : List ℕ}
    → mtu < 65536
    → IsOk t
    → Builds mtu i t q bytes t' q'
    → (weight t' q' ≤ weight t q) × (i + 4 < mtu → 0 < length bytes → weight t' q' < weight t q)
Builds-weight m v (full h) = (omega arith, λ _ pos. absurd (omega arith))
Builds-weight m v (nothing h l) = (omega (arith, Loaded-weight l), λ _ pos. absurd (omega arith))
Builds-weight m v (cramped h l tight) =
    (omega (arith, Loaded-weight l), λ _ pos. absurd (omega arith))
Builds-weight {mtu} {i} m v (fills {t1 = t1} {q1 = q1} h l room e b a) =
    let (less, fewer) = advanced-weight mtu i t1 q1 l.ok l.active m h room in
    rw a
      (omega (arith, Loaded-weight l, less), λ space _. omega (arith, Loaded-weight l, fewer space))
Builds-weight {mtu} {i} m v (more {t1 = t1} {q1 = q1} h l room e b d) =
    let (less, fewer) = advanced-weight mtu i t1 q1 l.ok l.active m h room in
    let rest = Builds-weight m (advanced-IsOk mtu i t1 l.ok l.active m h room) d in
    (
      omega (arith, Loaded-weight l, less, rest.0),
      λ space _. omega (arith, Loaded-weight l, fewer space, rest.0),
    )

-- A packet without bytes leaves what waits.
pub Builds-kept :
    {mtu i : ℕ} {t t' : TxCtx} {q q' : Fifos} {bytes : List ℕ}
    → mtu < 65536
    → Builds mtu i t q bytes t' q'
    → length bytes ≡ 0
    → pending t' q' ≡ pending t q
Builds-kept m (full h) e = refl
Builds-kept m (nothing h l) e = l.kept
Builds-kept m (cramped h l tight) e = l.kept
Builds-kept {mtu} {i} m (fills {t1 = t1} h l room _ b a) e =
    absurd (omega (arith, ap length b, e, emitted_bounds mtu i t1 l.ok l.active m h room))
Builds-kept {mtu} {i} m (more {t1 = t1} {rest = rest} h l room _ b d) e = absurd (
    omega (
      arith,
      ap length b,
      length-append (emitted mtu i t1) rest,
      e,
      emitted_bounds mtu i t1 l.ok l.active m h room,
    ))

total_short : (ms : List Msg) → AllShort ms → total (map content ms) ≤ length ms * 251
unfolding total
total_short [] h = omega arith
total_short (x ∷ ms) (h, k) = omega (arith, total_short ms k)

pub weight_bounded : (t : TxCtx) (q : Fifos) → IsOk t → IsReady q → weight t q < tx_rounds
unfolding waiting
weight_bounded t q v w =
    let few : length (contents q.tx_fifo) ≤ fifo_size =
      omega (arith, length-contents q.tx_fifo, w.tx_live.valid, w.tx_live.sized) in
    let queued = total_short (contents q.tx_fifo) w.tx_short in
    elim (Bool-cases t.msg_active) [
      | inl busy ↦ ground (arith, weight_busy t q busy, v.short busy, queued, few)
      | inr idle ↦ omega (arith, weight_quiet t q idle, queued, few)
    ]
