-- ===== src/Ble/Manager/Send.antt =====
-- `populate_tx_buffers` sends what waits to be sent, and returns.
use minimal_watch_firmware_e.Base.{
  ℕ, zero, suc, ◌+◌, ◌≤◌, ◌<◌, ◌≡◌, ◌≢◌, ◌∙◌, refl, ◌⊎◌, inl, inr, true, false, some, List, [], ◌∷◌,
  arith, ℕ_discrete, Bool-cases, ltb, ◌==◌, length,
}
use minimal_watch_firmware_e.Ble.Fifo.Laws.{IsReady}
use minimal_watch_firmware_e.Ble.Tx.Loading.{IsOk, pending}
use minimal_watch_firmware_e.Ble.Tx.Builds.{Builds-Built, Builds-some}
use minimal_watch_firmware_e.Ble.Tx.Total.{flag, build_next_packet-Builds}
use minimal_watch_firmware_e.Ble.Manager.Weight.{weight, Builds-weight, Builds-kept, weight_bounded}
use minimal_watch_firmware_e.Ble.Manager.{
  BleManager, Host, allocates, notify_packet, populate_loop, populate_tx_buffers, tx_rounds,
  buffer_size,
}

module _ {ℓ} {W : Type ℓ} (host : Host W) where
  -- What a run of the loop leaves: everything is sent, or the stack had no memory for a packet.
  pub record Drained (b : BleManager) (b' : BleManager) : Type ℓ where
    pub ok : IsOk b'.tx_ctx
    pub ready : IsReady b'.fifos
    pub context : b'.g_ble ≡ b.g_ble
    pub rx_kept : b'.fifos.rx_fifo ≡ b.fifos.rx_fifo
    pub ended :
        (pending b'.tx_ctx b'.fifos ≡ [])
        ⊎ ((pkt : List ℕ) × (w : W) × ((host (allocates pkt) w).0 ≢ 0))

  loop_drains :
      (fuel : ℕ) (b : BleManager) (w : W)
      → weight b.tx_ctx b.fifos < fuel
      → 6 ≤ b.g_ble.effective_mtu
      → b.g_ble.effective_mtu ≤ buffer_size
      → IsOk b.tx_ctx
      → IsReady b.fifos
      → (b' : BleManager) × (w' : W) × (populate_loop host fuel b w ≡ some (b', w')) × Drained b b'
  unfolding populate_loop
  loop_drains zero b w f h k v r = absurd (omega arith)
  loop_drains (suc fuel) b w f h k v r =
      let mtu = b.g_ble.effective_mtu in
      let (bytes, t', q', e, built) =
        build_next_packet-Builds mtu b.tx_ctx b.fifos (omega arith) v r in
      let after = Builds-Built (omega arith) v r built in
      let b1 : BleManager = record b { tx_ctx = t'; fifos = q' } in
      let pkt : List ℕ = flag b.tx_ctx ∷ bytes in
      let fits : ltb buffer_size (length pkt) ≡ false = ground (arith, after.fits) in
      elim (Bool-cases (ltb 1 (length bytes + 1))) [
        | inr empty ↦ (
          b1,
          w,
          rw (e, empty, fits) refl,
          record {
            ok = after.ok;
            ready = after.ready;
            context = refl;
            rx_kept = after.rx_kept;
            ended = elim (Builds-some (omega arith) (omega arith) built) [
              | inl (sent, nothing_new) ↦
                  inl (Builds-kept (omega arith) built (ground (arith, empty)) ∙ sent)
              | inr (left, pos) ↦ absurd (ground (arith, empty, pos))
            ];
          },
        )
        | inl some_bytes ↦ elim (ℕ_discrete (host (allocates pkt) w).0 0) [
          | no full_up ↦
              let failed : ((host (allocates pkt) w).0 == 0) ≡ false = ground (arith, full_up) in
              (
                b1,
                (host (allocates pkt) w).1,
                rw (e, some_bytes, fits, failed) refl,
                record {
                  ok = after.ok;
                  ready = after.ready;
                  context = refl;
                  rx_kept = after.rx_kept;
                  ended = inr (pkt, w, full_up);
                },
              )
          | yes had ↦
              let fewer =
                (Builds-weight (omega arith) v built).1 (omega arith)
                  (ground (arith, some_bytes)) in
              let (b2, w2, run, d) =
                loop_drains fuel b1 (notify_packet host b pkt (host (allocates pkt) w).1)
                  (omega (arith, fewer)) h k after.ok after.ready in
              (
                b2,
                w2,
                rw (e, some_bytes, fits, had) run,
                record {
                  ok = d.ok;
                  ready = d.ready;
                  context = d.context;
                  rx_kept = d.rx_kept ∙ after.rx_kept;
                  ended = d.ended;
                },
              )
        ]
      ]

  -- With a connection and notifications enabled, packets of 6 to 517 bytes (`effective_mtu`), a sender
  -- in order and its queues ready: `populate_tx_buffers` returns. Nothing is written behind `tx_buffer`,
  -- the sender is in order and the queues are ready again, the messages received are not touched, and
  -- no message is left to be sent, unless the stack had no memory for a packet.
  pub populate_tx_buffers-Drained :
      (b : BleManager) (w : W)
      → b.g_ble.is_connected ≡ true
      → b.g_ble.notifications_enabled ≡ true
      → 6 ≤ b.g_ble.effective_mtu
      → b.g_ble.effective_mtu ≤ buffer_size
      → IsOk b.tx_ctx
      → IsReady b.fifos
      → (b' : BleManager) × (w' : W) × (populate_tx_buffers host b w ≡ some (b', w')) × Drained b b'
  unfolding populate_tx_buffers
  populate_tx_buffers-Drained b w on enabled h k v r =
      let (b', w', run, d) =
        loop_drains tx_rounds b w (weight_bounded b.tx_ctx b.fifos v r) h k v r in
      (b', w', simp (on, enabled) run, d)
