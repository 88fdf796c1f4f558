-- ===== src/Ble/Manager/Tests.antt =====
-- The connection and its hooks at concrete states.
use minimal_watch_firmware_e.Base.{
  ℕ, ◌≡◌, refl, Bool, true, false, not, none, some, [], ◌∷◌, arith, store,
}
use minimal_watch_firmware_e.Wakelock.{pos}
use minimal_watch_firmware_e.Ring.{Ring, drop_oldest}
use minimal_watch_firmware_e.Ble.Message.{Msg, fifo_size}
use minimal_watch_firmware_e.Ble.Fifo.Laws.{IsReady}
use minimal_watch_firmware_e.Ble.Rx.{wait_magic}
use minimal_watch_firmware_e.Ble.Multichunk.{cleared}
use minimal_watch_firmware_e.Ble.Multichunk.Stages.{cleared-IsOk}
use minimal_watch_firmware_e.Ble.Responses.{Outside}
use minimal_watch_firmware_e.Ble.Manager.{
  BleContext, BleManager, StackCall, Host, starts_advertising, connect, disconnect, ble_on_sync,
  ble_gap_event, start_advertising, populate_tx_buffers, process_rx_buffers,
}
use minimal_watch_firmware_e.Ble.Manager.Send.{Drained, populate_tx_buffers-Drained}
use minimal_watch_firmware_e.Ble.Manager.Receive.{Emptied, process_rx_buffers-Emptied}
use minimal_watch_firmware_e.Ble.Manager.Air.{Radio, History, syncs, reports, history-advertises}

abbrev blank : Msg
blank = record { hdr = record { opcode = 0; req_app = 0; len = 0 }; payload = λ _. 0 }

-- The time, in four bytes.
abbrev time_msg : Msg
time_msg = record { hdr = record { opcode = 1; req_app = 0; len = 4 }; payload = λ _. 1 }

-- A queue with that message.
abbrev one_msg : Ring Msg
one_msg = record {
  buffer = store (λ _. blank) 0 time_msg;
  element_size = 253;
  capacity = fifo_size;
  read_idx = 0;
  write_idx = 1;
  count = 1;
  mutex = true;
  overflow_policy = drop_oldest;
}

abbrev context : Bool → BleContext
context connected = record {
  conn_handle = none;
  is_connected = connected;
  shutdown_initiated = false;
  notifications_enabled = connected;
  tx_val_handle = 3;
  effective_mtu = 20;
  shutdown_sem = some false;
}

-- A message waits in each direction.
abbrev manager : Bool → BleManager
manager connected = record {
  g_ble = context connected;
  tx_ctx = record { cur_msg = blank; offset = 0; msg_active = false };
  rx_ctx = record { state = wait_magic; cur_msg = blank; offset = 0; msg_active = false };
  fifos = record { tx_fifo = one_msg; rx_fifo = one_msg };
  parser = cleared;
}

-- The world is whether the watch advertises; no call fails.
abbrev answer : StackCall → Bool → ℕ × Bool
answer starts_advertising w = (0, true)
answer _ w = (0, w)

abbrev host : Host Bool
host c w = answer c w

simple_radio : Radio host
simple_radio = record {
  advertises = λ w. w;
  fields_set = λ w. refl;
  infers = λ w. refl;
  starts = λ w. refl;
  updates = λ w handle. refl;
  sets = λ w handle. refl;
}

abbrev outside : Outside Bool
outside = record {
  malloc = λ n. none;
  crc32 = λ c bytes. c;
  event_publish = λ e w. (true, w);
  weather_state = record {
    expires_at = 0;
    hourly_today = λ _. record {
      temperature = pos 0;
      humidity = 0;
      precip_prob = 0;
      weather_code = 0;
      wind_speed = 0;
    };
  };
  notification = record {
    app = 0;
    app_name = λ _. 0;
    body = λ _. 0;
    action_name = λ _. 0;
    dismiss_text = λ _. 0;
    action_handler = 0;
    dismiss_handler = 0;
  };
}

manager-IsReady : IsReady (manager true).fifos
manager-IsReady = record {
  tx_live = record { valid = omega arith; locked_by = refl; sized = refl; ruled = refl };
  rx_live = record { valid = omega arith; locked_by = refl; sized = refl; ruled = refl };
  tx_short = (omega arith, tt);
  rx_short = (omega arith, tt);
}

populate_tx_buffers-Drained_example :
    (b : BleManager) × (w : Bool) × (populate_tx_buffers host (manager true) false ≡ some (b, w))
    × Drained host (manager true) b
populate_tx_buffers-Drained_example =
    populate_tx_buffers-Drained host (manager true) false refl refl (omega arith) (omega arith)
      (record { short = λ e. absurd (cc); inside = λ e _. absurd (cc) }) manager-IsReady

process_rx_buffers-Emptied_example :
    (b : BleManager) × (w : Bool) × (process_rx_buffers outside (manager true) false ≡ some (b, w))
    × Emptied outside (manager true) false (time_msg ∷ []) b w
process_rx_buffers-Emptied_example =
    process_rx_buffers-Emptied outside (manager true) false
      (record { short = omega arith; bytes = λ j. omega arith }, tt) cleared-IsOk manager-IsReady

-- The phone connects and goes away.
abbrev after : BleManager
after =
    (ble_gap_event host disconnect (ble_gap_event host (connect 0 9) (manager false) false).0
      false).0

history : History host simple_radio (manager false) false after (start_advertising host false)
unfolding ble_gap_event ble_on_sync start_advertising simple_radio
history = reports disconnect false (reports (connect 0 9) false syncs (refl, refl)) (refl, refl)

history-advertises_example :
    simple_radio.advertises (start_advertising host false) ≡ not after.g_ble.is_connected
history-advertises_example = history-advertises host simple_radio refl refl history
