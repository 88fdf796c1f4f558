-- ===== src/Ble/Tx/Total.antt =====
-- `ble_build_next_packet` returns, stays inside the packet and does not leave messages waiting.
use minimal_watch_firmware_e.Base.{
  ℕ, ◌+◌, ◌≤◌, ◌<◌, ◌≡◌, ◌≢◌, ◌↔◌, ◌⊎◌, inl, inr, Bool, true, some, List, [], ◌∷◌, arith, ltb,
  length, if◌then◌else◌,
}
use minimal_watch_firmware_e.Ble.Fifo.{Fifos}
use minimal_watch_firmware_e.Ble.Fifo.Laws.{IsReady}
use minimal_watch_firmware_e.Ble.Tx.{TxCtx, build_next_packet}
use minimal_watch_firmware_e.Ble.Tx.Loading.{IsOk, pending}
use minimal_watch_firmware_e.Ble.Tx.Builds.{Builds, build_loop-Builds, Builds-Built, Builds-some}

-- What a packet `pkt` of at most `mtu` bytes is, with the state behind it.
pub record Sent (mtu : ℕ) (t : TxCtx) (q : Fifos) (done : Bool) (bytes : List ℕ) (t' : TxCtx)
    (q' : Fifos) : Type 0 where
  pub ok : IsOk t'
  pub ready : IsReady q'
  pub rx_kept : q'.rx_fifo ≡ q.rx_fifo
  pub fits : (length bytes + 1 ≤ mtu) ⊎ (bytes ≡ [])

abbrev pub flag : TxCtx → ℕ
flag t = if t.msg_active then 1 else 0

pub build_next_packet-Builds :
    (mtu : ℕ) (t : TxCtx) (q : Fifos)
    → mtu < 65536
    → IsOk t
    → IsReady q
    → (bytes : List ℕ) × (t' : TxCtx) × (q' : Fifos) × (build_next_packet true mtu t q
        ≡ some (ltb 1 (length bytes + 1), flag t ∷ bytes, t', q'))
      × Builds mtu 1 t q bytes t' q'
unfolding build_next_packet
build_next_packet-Builds mtu t q m v w =
    let (bytes, t', q', e, b) = build_loop-Builds (mtu + 1) mtu 1 t q m (omega arith) v w in
    (bytes, t', q', rw e, b)

-- `ble_build_next_packet` returns without a failed assertion for every packet size below 65536 and
-- in every state that keeps its invariant (a message that is being sent is not too long, and is not
-- used up) with its queues ready. The packet has the continuation flag and then message bytes, no
-- more than `effective_mtu` bytes in all (or the flag alone), the invariant holds again, the queues
-- are ready, and the received messages are not touched.
pub build_next_packet-Sent :
    (mtu : ℕ) (t : TxCtx) (q : Fifos)
    → mtu < 65536
    → IsOk t
    → IsReady q
    → (done : Bool) × (bytes : List ℕ) × (t' : TxCtx) × (q' : Fifos) × (build_next_packet true mtu t
          q
        ≡ some (done, flag t ∷ bytes, t', q'))
      × Sent mtu t q done bytes t' q'
build_next_packet-Sent mtu t q m v w =
    let (bytes, t', q', e, b) = build_next_packet-Builds mtu t q m v w in
    let r = Builds-Built m v w b in
    (
      ltb 1 (length bytes + 1),
      bytes,
      t',
      q',
      e,
      record { ok = r.ok; ready = r.ready; rx_kept = r.rx_kept; fits = ground (arith, r.fits) },
    )

-- With `effective_mtu` of 5 or more (and below 65536), from a state that keeps the invariant with the
-- queues ready, `ble_build_next_packet` returns, and it returns true exactly if a message is waiting
-- to be sent.
pub build_next_packet-tells :
    (mtu : ℕ) (t : TxCtx) (q : Fifos)
    → 5 ≤ mtu
    → mtu < 65536
    → IsOk t
    → IsReady q
    → (done : Bool) × (pkt : List ℕ) × (t' : TxCtx) × (q' : Fifos) × (build_next_packet true mtu t q
        ≡ some (done, pkt, t', q'))
      × ((done ≡ true) ↔ (pending t q ≢ []))
build_next_packet-tells mtu t q h m v w =
    let (bytes, t', q', e, b) = build_next_packet-Builds mtu t q m v w in
    (ltb 1 (length bytes + 1), flag t ∷ bytes, t', q', e, told b)
  where
    told :
        {t' : TxCtx} {q' : Fifos} {bytes : List ℕ}
        → Builds mtu 1 t q bytes t' q'
        → (ltb 1 (length bytes + 1) ≡ true) ↔ (pending t q ≢ [])
    told b = elim (Builds-some h m b) [
      | inl (none_left, empty) ↦ (λ d. absurd (ground arith), λ n. absurd (n none_left))
      | inr (left, pos) ↦ (λ _. left, λ _. ground arith)
    ]
