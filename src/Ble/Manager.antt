-- ===== src/Ble/Manager.antt =====
-- components/ble_manager/src/ble_manager.c: the connection to the phone, and the two hooks that move
-- the messages.
--
-- The Bluetooth stack (NimBLE) is not known here: `Host` runs each call of it, in a world `W` of the
-- rest of the firmware, and answers with its result, 0 for success; its callbacks are the functions of
-- this file. `none` is a failed assertion, a loop that ran out of fuel, or a write behind `tx_buffer`.
-- Callbacks and hooks are taken one at a time.
pub mod Weight
pub mod Send
pub mod Receive
pub mod Air
mod Tests
use minimal_watch_firmware_e.Base.{
  ℕ, zero, suc, ◌+◌, ◌-◌, ◌*◌, Bool, true, false, not, ◌&&◌, ◌||◌, Option, none, some, List, [],
  ◌∷◌, ltb, leb, ◌==◌, if◌then◌else◌, length, ◌>>=◌,
}
use minimal_watch_firmware_e.Common.{Req}
use minimal_watch_firmware_e.Events
use minimal_watch_firmware_e.Events.{Registry}
use minimal_watch_firmware_e.Runtime.{Runtime, Env}
use minimal_watch_firmware_e.Runtime.Platform.{Os}
use minimal_watch_firmware_e.Runtime.Calls.{register_hook, unregister_hook}
use minimal_watch_firmware_e.Ble.Message.{Msg, max_payload_size, fifo_size}
use minimal_watch_firmware_e.Ble.Fifo
use minimal_watch_firmware_e.Ble.Fifo.{Fifos, ble_rx}
use minimal_watch_firmware_e.Ble.Tx.{TxCtx, build_next_packet}
use minimal_watch_firmware_e.Ble.Rx
use minimal_watch_firmware_e.Ble.Rx.{RxCtx, retrieve_packet}
use minimal_watch_firmware_e.Ble.Multichunk.{Parser}
use minimal_watch_firmware_e.Ble.Requests.{handle_ble_request}
use minimal_watch_firmware_e.Ble.Responses.{Outside, handle_ble_response}

-- `ble_context_t`; a handle that is none is BLE_HS_CONN_HANDLE_NONE, and `shutdown_sem` is whether the
-- semaphore was given, if there is one.
pub record BleContext : Type 0 where
  pub conn_handle : Option ℕ
  pub is_connected : Bool
  pub shutdown_initiated : Bool
  pub notifications_enabled : Bool
  pub tx_val_handle : ℕ
  pub effective_mtu : ℕ
  pub shutdown_sem : Option Bool

-- `g_ble`, with the contexts of the packet code, the queues and the parser of chunks.
pub record BleManager : Type 0 where
  pub g_ble : BleContext
  pub tx_ctx : TxCtx
  pub rx_ctx : RxCtx
  pub fifos : Fifos
  pub parser : Parser

-- The size of `tx_buffer` and of `rx_buffer`.
abbrev pub buffer_size : ℕ
buffer_size = 517

-- The calls of the stack.
pub data StackCall : Type 0 where
  infers_address sets_fields starts_advertising stops_advertising : StackCall
  updates_params sets_phy terminates : Option ℕ → StackCall
  allocates frees : List ℕ → StackCall
  notifies : Option ℕ → ℕ → List ℕ → StackCall
  inits_port sets_name counts_services adds_services resets_services stops_port : StackCall

abbrev pub Host {ℓ} : Type ℓ → Type ℓ
Host W = StackCall → W → ℕ × W

-- The events of `ble_gap_event`, with the fields that are read.
pub data GapEvent : Type 0 where
  connect : (status conn_handle : ℕ) → GapEvent
  disconnect conn_update phy_update_complete adv_complete unhandled : GapEvent
  mtu cur_notify : ℕ → GapEvent

-- `rx_reset_context` on the state.
abbrev pub rx_cleared : BleManager → BleManager
rx_cleared b = record b { rx_ctx = Rx.reset_context b.rx_ctx }

-- Connected to the phone.
abbrev pub joined : ℕ → BleManager → BleManager
joined handle b =
    rx_cleared
      (record b { g_ble = record b.g_ble { conn_handle = some handle; is_connected = true } })

-- No longer connected.
abbrev pub parted : BleManager → BleManager
parted b = rx_cleared (record b {
  g_ble = record b.g_ble {
    is_connected = false;
    notifications_enabled = false;
    conn_handle = none;
    effective_mtu = 20;
  };
})

abbrev pub given : Option Bool → Option Bool
given none = none
given (some g) = some true

abbrev pub sem_given : BleManager → BleManager
sem_given b = record b { g_ble = record b.g_ble { shutdown_sem = given b.g_ble.shutdown_sem } }

-- `mw_rx_write_cb`: whether it returns 0; otherwise the packet is longer than `rx_buffer`.
unfoldable pub mw_rx_write_cb : List ℕ → BleManager → Option (Bool × BleManager)
mw_rx_write_cb pkt b = if ltb buffer_size (length pkt) then some (false, b) else do
  (rx, q) ← retrieve_packet (some pkt) b.rx_ctx b.fifos
  some (true, record b { rx_ctx = rx; fifos = q })

-- `submit_ble_request`: the event's data if the event is there, and whether the length is right.
unfoldable pub submit_ble_request : Option (Option Req) → Bool → BleManager → Option BleManager
submit_ble_request none sized b = some b
submit_ble_request (some req) sized b =
    if sized
    then (do (done, q) ← handle_ble_request req b.fifos; some (record b { fifos = q }))
    else none

-- The fuel of the loops: a packet takes a byte or an empty message away from what waits to be sent, at
-- most one message more than a queue holds; and a round of the other loop takes a message.
abbrev pub tx_rounds : ℕ
tx_rounds = (fifo_size + 1) * (max_payload_size + 1) + 1

abbrev pub rx_rounds : ℕ
rx_rounds = fifo_size + 1

module _ {ℓ} {W : Type ℓ} (host : Host W) where
  -- `start_advertising`
  unfoldable pub start_advertising : W → W
  start_advertising w =
      let (rc, w1) = host sets_fields w in if rc == 0 then (host starts_advertising w1).1 else w1

  -- `ble_on_sync`
  unfoldable pub ble_on_sync : W → W
  ble_on_sync w =
      let (rc, w1) = host infers_address w in if rc == 0 then start_advertising w1 else w1

  -- `ble_gap_event`
  unfoldable pub ble_gap_event : GapEvent → BleManager → W → BleManager × W
  ble_gap_event (connect status handle) b w =
      if status == 0
      then (
        joined handle b,
        (host (sets_phy (some handle)) (host (updates_params (some handle)) w).1).1,
      )
      else (b, start_advertising w)
  ble_gap_event disconnect b w =
      if not b.g_ble.shutdown_initiated
      then (parted b, start_advertising w)
      else (sem_given (parted b), w)
  ble_gap_event (mtu value) b w = (
    record b { g_ble = record b.g_ble { effective_mtu = if ltb 3 value then value - 3 else 0 } },
    w,
  )
  ble_gap_event (cur_notify n) b w =
      (record b { g_ble = record b.g_ble { notifications_enabled = not (n == 0) } }, w)
  ble_gap_event conn_update b w = (b, w)
  ble_gap_event phy_update_complete b w = (b, w)
  ble_gap_event adv_complete b w =
      (b, if not b.g_ble.shutdown_initiated then start_advertising w else w)
  ble_gap_event unhandled b w = (b, w)

  -- A packet goes to the phone, or is given up.
  abbrev pub notify_packet : BleManager → List ℕ → W → W
  notify_packet b pkt w =
      let (rc, w1) = host (notifies b.g_ble.conn_handle b.g_ble.tx_val_handle pkt) w in
      if rc == 0 then w1 else (host (frees pkt) w1).1

  -- The loop of `populate_tx_buffers`.
  unfoldable pub populate_loop : ℕ → BleManager → W → Option (BleManager × W)
  populate_loop zero b w = none
  populate_loop (suc fuel) b w = do
    (more, pkt, tx, q) ← build_next_packet true b.g_ble.effective_mtu b.tx_ctx b.fifos
    let b' : BleManager = record b { tx_ctx = tx; fifos = q }
    let allocated = host (allocates pkt) w
    let rest = populate_loop fuel b' (notify_packet b pkt allocated.1)
    if ltb buffer_size (length pkt)
        then none
        else if not more
        then some (b', w)
        else if allocated.0 == 0
        then rest
        else some (b', allocated.1)

  -- `populate_tx_buffers`
  unfoldable pub populate_tx_buffers : BleManager → W → Option (BleManager × W)
  populate_tx_buffers b w =
      if not b.g_ble.is_connected || not b.g_ble.notifications_enabled
      then some (b, w)
      else populate_loop tx_rounds b w

  abbrev pub must : StackCall → W → Option W
  must c w = let (rc, w') = host c w in if rc == 0 then some w' else none

module _ {ℓ} {W : Type ℓ} (outside : Outside W) where
  -- The loop of `process_rx_buffers`.
  unfoldable pub process_loop : ℕ → BleManager → W → Option (BleManager × W)
  process_loop zero b w = none
  process_loop (suc fuel) b w = do
    (found, item, q) ← Fifo.get_next true ble_rx b.fifos
    let rest = do
      (done, p, w') ← handle_ble_response outside item b.parser w
      process_loop fuel (record b { fifos = q; parser = p }) w'
    if found then rest else some (record b { fifos = q }, w)

  -- `process_rx_buffers`
  unfoldable pub process_rx_buffers : BleManager → W → Option (BleManager × W)
  process_rx_buffers b w = process_loop rx_rounds b w

-- The addresses of `submit_ble_request`, `process_rx_buffers` and `populate_tx_buffers`.
pub record Addresses : Type 0 where
  pub submit : ℕ
  pub process_rx : ℕ
  pub populate_tx : ℕ

-- `g_ble` as `ble_manager_init` sets it.
abbrev pub initial_context : BleContext → BleContext
initial_context g = record g {
  is_connected = false;
  notifications_enabled = false;
  conn_handle = none;
  effective_mtu = 20;
  shutdown_initiated = false;
  shutdown_sem = some false;
}

module _ {ℓ} {W : Type ℓ} (host : Host W) (os : Os) where
  -- `ble_manager_init`: `created` says whether the semaphore could be made, and `q` is what
  -- `ble_fifo_init` leaves of the queues; the answers of the hooks are not looked at.
  unfoldable pub init :
      Addresses
      → Bool
      → Fifos
      → Env
      → BleManager
      → Registry
      → Runtime os
      → W
      → Option (BleManager × Registry × Runtime os × W)
  init a created q e b r n w = do
    w1 ← must host inits_port w
    w2 ← must host sets_name w1
    w3 ← must host counts_services w2
    w4 ← must host adds_services w3
    let (ok, r') = Events.subscribe r 8 a.submit
    let (first, n1) = register_hook os e a.process_rx n
    let (second, n2) = register_hook os e a.populate_tx n1
    if created && ok
        then some (record b { g_ble = initial_context b.g_ble; fifos = q }, r', n2, w4)
        else none

  -- What the stack reports while `ble_manager_deinit` waits for the semaphore.
  abbrev pub meanwhile : List GapEvent → BleManager → W → BleManager × W
  meanwhile [] b w = (b, w)
  meanwhile (x ∷ events) b w = let (b1, w1) = ble_gap_event host x b w in meanwhile events b1 w1

  -- The end of a connection, with its handle and the semaphore, or of advertising.
  abbrev pub part_from_phone :
      List GapEvent → BleManager → W → Option ℕ → Option Bool → Option (BleManager × W)
  part_from_phone events b w none sem = some (b, (host stops_advertising w).1)
  part_from_phone events b w (some handle) none = none
  part_from_phone events b w (some handle) (some sem) =
      let (rc, w1) = host (terminates (some handle)) w in
      some (if rc == 0 then meanwhile events b w1 else (b, w1))

  -- `ble_manager_deinit`
  unfoldable pub deinit :
      Addresses
      → List GapEvent
      → Env
      → BleManager
      → Registry
      → Runtime os
      → W
      → Option (BleManager × Registry × Runtime os × W)
  deinit a events e b r n w =
      let b1 : BleManager = record b { g_ble = record b.g_ble { shutdown_initiated = true } } in
      let (first, n1) = unregister_hook os e a.populate_tx n in
      let (second, n2) = unregister_hook os e a.process_rx n1 in
      let (done, r') = Events.unsubscribe r 8 a.submit in
      let handle = if b1.g_ble.is_connected then b1.g_ble.conn_handle else none in
      do
        (b2, w1) ← part_from_phone events b1 w handle b1.g_ble.shutdown_sem
        w2 ← must host stops_port (host resets_services w1).1
        let g = record b2.g_ble { shutdown_initiated = false; shutdown_sem = none }
        some (record b2 { g_ble = g; fifos = Fifo.deinit b2.fifos }, r', n2, w2)
