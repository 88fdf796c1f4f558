-- ===== src/Ble/Tx.antt =====
-- components/ble_manager/src/ble_packet_handler.c: `ble_build_next_packet`, which cuts the queued
-- messages into packets.
--
-- `tx_buffer` is written from the front on, so a piece of code returns the bytes that it appends.
-- `none` is a failed assertion of the queue, or a loop that ran out of fuel.
pub mod Loading
pub mod Builds
pub mod Total
use minimal_watch_firmware_e.Base.{
  ℕ, zero, suc, ◌+◌, ◌-◌, Bool, true, false, not, ◌&&◌, ◌||◌, Option, none, some, List, [], ◌∷◌,
  ◌++◌, ltb, leb, ◌==◌, if◌then◌else◌, u16, read, length, ◌>>=◌,
}
use minimal_watch_firmware_e.Ble.Message.{Header, Msg, magic, hdr_size}
use minimal_watch_firmware_e.Ble.Fifo
use minimal_watch_firmware_e.Ble.Fifo.{Fifos, ble_tx}

-- `tx_ctx_t`
pub record TxCtx : Type 0 where
  pub cur_msg : Msg
  pub offset : ℕ
  pub msg_active : Bool

-- `tx_reset_context`
unfoldable pub reset_context : TxCtx → TxCtx
reset_context t = record t { msg_active = false; offset = 0 }

abbrev pub written : Msg → Option Msg → Msg
written m none = m
written m (some new) = new

-- `uint16_t` subtraction.
abbrev pub sub16 : ℕ → ℕ → ℕ
sub16 a b = u16 (a + 65536 - b)

-- Load the next message if needed. The first component is false where the queue is empty.
unfoldable pub load : TxCtx → Fifos → Option (Bool × TxCtx × Fifos)
load t q = if t.msg_active then some (true, t, q) else do
  (done, item, q') ← Fifo.get_next true ble_tx q
  some (
      if done
      then (true, record { cur_msg = written t.cur_msg item; offset = 0; msg_active = true }, q')
      else (false, record t { cur_msg = written t.cur_msg item }, q'))

-- The message header, written once per message.
abbrev pub header : Header → List ℕ
header h = magic ∷ h.opcode ∷ h.req_app ∷ h.len ∷ []

abbrev pub header_part : TxCtx → List ℕ
header_part t = if t.offset == 0 then header t.cur_msg.hdr else []

-- How many payload bytes go into a packet of `mtu` bytes, `i` of which are there before the header.
abbrev pub chunk : ℕ → ℕ → TxCtx → ℕ
chunk mtu i t =
    let remaining_msg = sub16 t.cur_msg.hdr.len t.offset in
    let remaining_pkt = sub16 mtu (u16 (i + length (header_part t))) in
    if ltb remaining_msg remaining_pkt then remaining_msg else remaining_pkt

abbrev pub emitted : ℕ → ℕ → TxCtx → List ℕ
emitted mtu i t = header_part t ++ read t.cur_msg.payload t.offset (chunk mtu i t)

-- `tx_ctx` once the chunk is copied; a complete message is no longer active.
abbrev pub advanced : ℕ → TxCtx → TxCtx
advanced n t = record t {
  offset = u16 (t.offset + n);
  msg_active = if leb t.cur_msg.hdr.len (u16 (t.offset + n)) then false else t.msg_active;
}

-- The header does not fit into what is left of the packet.
abbrev pub no_room : ℕ → ℕ → TxCtx → Bool
no_room mtu i t = t.offset == 0 && ltb (sub16 mtu i) (1 + hdr_size)

-- `while (i < effective_mtu)`
unfoldable pub build_loop : ℕ → ℕ → ℕ → TxCtx → Fifos → Option (List ℕ × TxCtx × Fifos)
build_loop zero mtu i t q = none
build_loop (suc fuel) mtu i t q =
    let round = do
      (loaded, t', q') ← load t q
      let n = chunk mtu i t'
      let i' = u16 (i + length (emitted mtu i t'))
      let more = do
        (bytes, t'', q'') ← build_loop fuel mtu i' (advanced n t') q'
        some (emitted mtu i t' ++ bytes, t'', q'')
      if not loaded || no_room mtu i t'
          then some ([], t', q')
          else if leb mtu i'
          then some (emitted mtu i t', advanced n t', q')
          else more
    in if ltb i mtu then round else some ([], t, q)

-- `ble_build_next_packet`. `given` says that both pointers are not null; the packet is what stands
-- in `tx_buffer`, and `*out_len` is its length.
unfoldable pub build_next_packet : Bool → ℕ → TxCtx → Fifos → Option (Bool × List ℕ × TxCtx × Fifos)
build_next_packet given mtu t q = if not given then some (false, [], t, q) else do
  (bytes, t', q') ← build_loop (mtu + 1) mtu 1 t q
  some (ltb 1 (length bytes + 1), (if t.msg_active then 1 else 0) ∷ bytes, t', q')
