-- ===== src/Ble/Message.antt =====
-- components/ble_manager/private/ble_types.h and ble_consts.h: a message and its bytes.
use minimal_watch_firmware_e.Base.{ℕ, List, read}

-- `ble_msg_hdr_t`, of three `uint8_t`.
pub record Header : Type 0 where
  pub opcode : ℕ
  pub req_app : ℕ
  pub len : ℕ

-- `ble_msg_t`; the payload has `max_payload_size` cells.
pub record Msg : Type 0 where
  pub hdr : Header
  pub payload : ℕ → ℕ

-- BLE_MAX_PAYLOAD_SIZE
abbrev pub max_payload_size : ℕ
max_payload_size = 250

-- BLE_FIFO_SIZE
abbrev pub fifo_size : ℕ
fifo_size = 20

-- BLE_MAGIC
abbrev pub magic : ℕ
magic = 0xA5

-- BLE_HDR_SIZE
abbrev pub hdr_size : ℕ
hdr_size = 3

-- What a message says: its header, and the payload bytes that the header counts.
abbrev pub Content : Type 0
Content = Header × List ℕ

abbrev pub content : Msg → Content
content m = (m.hdr, read m.payload 0 m.hdr.len)
