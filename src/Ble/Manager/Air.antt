-- ===== src/Ble/Manager/Air.antt =====
-- The watch can be found whenever it is not connected.
use minimal_watch_firmware_e.Base.{
  ℕ, ◌≡◌, ◌∙◌, refl, sym, ap, Bool, true, false, not, Option, some, ◌==◌, Bool-cases, inl, inr,
}
use minimal_watch_firmware_e.Ble.Manager.{
  BleManager, Host, infers_address, sets_fields, starts_advertising, updates_params, sets_phy,
  GapEvent, connect, disconnect, mtu, cur_notify, conn_update, phy_update_complete, adv_complete,
  unhandled, start_advertising, ble_on_sync, ble_gap_event,
}

-- What the stack's manual says of its calls, where none of them fails: whether the watch advertises
-- changes only by the call that starts it.
pub record Radio {ℓ} {W : Type ℓ} (host : Host W) : Type ℓ where
  pub advertises : W → Bool
  pub fields_set : (w : W) → (host sets_fields w).0 ≡ 0
  pub infers : (w : W) → (host infers_address w).0 ≡ 0
  pub starts : (w : W) → advertises (host starts_advertising w).1 ≡ true
  pub updates :
      (w : W) (handle : Option ℕ) → advertises (host (updates_params handle) w).1 ≡ advertises w
  pub sets : (w : W) (handle : Option ℕ) → advertises (host (sets_phy handle) w).1 ≡ advertises w

module _ {ℓ} {W : Type ℓ} (host : Host W) (radio : Radio host) where
  -- When the stack may report an event, in a world where it has happened: advertising ends with a
  -- connection, or with an attempt at one, or by itself.
  abbrev pub Reported : GapEvent → BleManager → W → Type 0
  Reported (connect status handle) b w =
      (b.g_ble.is_connected ≡ false) × (radio.advertises w ≡ false)
  Reported disconnect b w = (b.g_ble.is_connected ≡ true) × (radio.advertises w ≡ false)
  Reported adv_complete b w = (b.g_ble.is_connected ≡ false) × (radio.advertises w ≡ false)
  Reported _ b w = radio.advertises w ≡ not b.g_ble.is_connected

  -- From the sync of the stack on, what it reports and what becomes of it.
  pub data History (b0 : BleManager) (w0 : W) : BleManager → W → Type ℓ where
    syncs : History b0 w0 b0 (ble_on_sync host w0)
    reports :
        {b : BleManager} {w : W} (e : GapEvent) (w' : W)
        → History b0 w0 b w
        → Reported e b w'
        → History b0 w0 (ble_gap_event host e b w').0 (ble_gap_event host e b w').1

  start_advertising-advertises : (w : W) → radio.advertises (start_advertising host w) ≡ true
  unfolding start_advertising
  start_advertising-advertises w = rw (radio.fields_set w) (radio.starts (host sets_fields w).1)

  -- One event.
  event_keeps :
      (e : GapEvent) (b : BleManager) (w : W)
      → b.g_ble.shutdown_initiated ≡ false
      → Reported e b w
      → (radio.advertises (ble_gap_event host e b w).1
          ≡ not (ble_gap_event host e b w).0.g_ble.is_connected)
        × ((ble_gap_event host e b w).0.g_ble.shutdown_initiated ≡ false)
  unfolding ble_gap_event
  event_keeps (connect status handle) b w on (off, quiet) = elim (Bool-cases (status == 0)) [
    | inl ok ↦ rw ok (
      radio.sets (host (updates_params (some handle)) w).1 (some handle)
          ∙ radio.updates w (some handle)
          ∙ quiet,
      on,
    )
    | inr failed ↦ rw failed (start_advertising-advertises w ∙ ap not (sym off), on)
  ]
  event_keeps disconnect b w on r = rw on (start_advertising-advertises w, refl)
  event_keeps (mtu value) b w on r = (r, on)
  event_keeps (cur_notify n) b w on r = (r, on)
  event_keeps conn_update b w on r = (r, on)
  event_keeps phy_update_complete b w on r = (r, on)
  event_keeps adv_complete b w on (off, quiet) =
      rw on (start_advertising-advertises w ∙ ap not (sym off), refl)
  event_keeps unhandled b w on r = (r, on)

  history_keeps :
      {b0 : BleManager} {w0 : W} {b : BleManager} {w : W}
      → b0.g_ble.is_connected ≡ false
      → b0.g_ble.shutdown_initiated ≡ false
      → History b0 w0 b w
      → (radio.advertises w ≡ not b.g_ble.is_connected) × (b.g_ble.shutdown_initiated ≡ false)
  unfolding ble_on_sync
  history_keeps {b0} {w0} off on syncs = (
    rw (radio.infers w0)
        (start_advertising-advertises (host infers_address w0).1 ∙ ap not (sym off)),
    on,
  )
  history_keeps off on (reports {b} e w' h r) = event_keeps e b w' (history_keeps off on h).1 r

  -- Where no call of the stack fails: from a watch that is not connected and not shutting down, after
  -- the stack has come up and over all that it then reports, connections, failed ones and their ends
  -- included, the watch advertises exactly while it is not connected.
  pub history-advertises :
      {b0 : BleManager} {w0 : W} {b : BleManager} {w : W}
      → b0.g_ble.is_connected ≡ false
      → b0.g_ble.shutdown_initiated ≡ false
      → History b0 w0 b w
      → radio.advertises w ≡ not b.g_ble.is_connected
  history-advertises off on h = (history_keeps off on h).0
