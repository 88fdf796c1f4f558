-- ===== src/Ble/Fifo.antt =====
-- components/ble_manager/src/ble_fifo.c: the queues of messages to send and of messages received.
pub mod Laws
use minimal_watch_firmware_e.Base.{
  ℕ, ◌+◌, Bool, true, false, ◌&&◌, Option, none, some, ltb, if◌then◌else◌, ◌>>=◌,
}
use minimal_watch_firmware_e.Ring
use minimal_watch_firmware_e.Ring.{Ring, drop_oldest}
use minimal_watch_firmware_e.Ble.Message.{Msg, max_payload_size, fifo_size}

-- `tx_fifo` and `rx_fifo`, with their storage.
pub record Fifos : Type 0 where
  pub tx_fifo : Ring Msg
  pub rx_fifo : Ring Msg

-- `ble_comm_type_t`; `other` is any value that the enumeration does not name.
pub data CommType : Type 0 where
  ble_tx ble_rx other : CommType

-- `get_fifo`; none is the null pointer.
abbrev pub get_fifo : CommType → Fifos → Option (Ring Msg)
get_fifo ble_tx q = some q.tx_fifo
get_fifo ble_rx q = some q.rx_fifo
get_fifo other q = none

-- A write through the pointer that `get_fifo` returns.
abbrev pub put_fifo : CommType → Fifos → Ring Msg → Fifos
put_fifo ble_tx q rb = record q { tx_fifo = rb }
put_fifo ble_rx q rb = record q { rx_fifo = rb }
put_fifo other q rb = q

-- `ble_fifo_init`: the storage arrays are static, `size_of_msg` is `sizeof(ble_msg_t)`, and the
-- two Booleans say whether the mutexes could be made.
unfoldable pub init : Bool → Bool → (ℕ → Msg) → (ℕ → Msg) → ℕ → Fifos → Bool × Fifos
init created_tx created_rx tx_storage rx_storage size_of_msg q =
    let (tx_ok, tx) =
      Ring.init created_tx q.tx_fifo (some tx_storage) fifo_size size_of_msg drop_oldest in
    let (rx_ok, rx) =
      Ring.init created_rx q.rx_fifo (some rx_storage) fifo_size size_of_msg drop_oldest in
    (tx_ok && rx_ok, record { tx_fifo = tx; rx_fifo = rx })

-- `ble_fifo_deinit`
unfoldable pub deinit : Fifos → Fifos
deinit q = record { tx_fifo = Ring.deinit q.tx_fifo; rx_fifo = Ring.deinit q.rx_fifo }

-- `ringbuf_push` on the queue that `get_fifo` found.
abbrev pub push_on : CommType → Fifos → Msg → Option (Ring Msg) → Option (Bool × Fifos)
push_on type q m none = some (false, q)
push_on type q m (some fifo) = do
  (done, fifo') ← Ring.push fifo (some m)
  some (done, put_fifo type q fifo')

-- `add_ble_msg_to_queue`
unfoldable pub add_msg : Option Msg → CommType → Fifos → Option (Bool × Fifos)
add_msg none type q = some (false, q)
add_msg (some m) type q =
    if ltb max_payload_size m.hdr.len then some (false, q) else push_on type q m (get_fifo type q)

-- `ringbuf_pop` on the queue that `get_fifo` found.
abbrev pub pop_from : CommType → Fifos → Option (Ring Msg) → Option (Bool × Option Msg × Fifos)
pop_from type q none = some (false, none, q)
pop_from type q (some fifo) = do
  (done, item, fifo') ← Ring.pop fifo
  some (done, item, put_fifo type q fifo')

-- `get_next_ble_msg`: `given` says that the pointer is not null; the option is what is copied to it.
unfoldable pub get_next : Bool → CommType → Fifos → Option (Bool × Option Msg × Fifos)
get_next given type q = if given then pop_from type q (get_fifo type q) else some (false, none, q)
