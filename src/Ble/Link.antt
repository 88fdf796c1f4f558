-- ===== src/Ble/Link.antt =====
-- Both ends of the link of ble_packet_handler.c: when a receiver is in step with a sender.
pub mod Receive
pub mod Step
pub mod Deliver
pub mod Packet
pub mod Repeat
use minimal_watch_firmware_e.Base.{ℕ, ◌≤◌, ◌<◌, ◌≡◌, ◌⊎◌, true, false, read, List, map}
use minimal_watch_firmware_e.Ring.Refine.{contents}
use minimal_watch_firmware_e.Ble.Message.{max_payload_size, Content, content}
use minimal_watch_firmware_e.Ble.Fifo.{Fifos}
use minimal_watch_firmware_e.Ble.Tx.{TxCtx}
use minimal_watch_firmware_e.Ble.Rx.{RxCtx, wait_magic, read_payload}

-- The receiver `r` has the header and the first bytes of the message that the sender `t` is in.
pub record Midway (t : TxCtx) (r : RxCtx) : Type 0 where
  pub reading : r.state ≡ read_payload
  pub active : r.msg_active ≡ true
  pub same_hdr : r.cur_msg.hdr ≡ t.cur_msg.hdr
  pub same_offset : r.offset ≡ t.offset
  pub same_bytes : read r.cur_msg.payload 0 t.offset ≡ read t.cur_msg.payload 0 t.offset
  pub inside : t.offset < t.cur_msg.hdr.len
  pub short : t.cur_msg.hdr.len ≤ max_payload_size

-- No header is out: the receiver looks for one.
pub record Between (t : TxCtx) (r : RxCtx) : Type 0 where
  pub unsent : (t.msg_active ≡ false) ⊎ (t.offset ≡ 0)
  pub idle : r.msg_active ≡ false

-- Between two packets.
abbrev pub Synced : TxCtx → RxCtx → Type 0
Synced t r = (Between t r) ⊎ ((t.msg_active ≡ true) × (0 < t.offset) × Midway t r)

-- What the messages received say.
abbrev pub received : Fifos → List Content
received p = map content (contents p.rx_fifo)
