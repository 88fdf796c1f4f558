-- ===== src/Ble/Rx.antt =====
-- components/ble_manager/src/ble_packet_handler.c: `ble_retrieve_packet`, which takes packets apart
-- and queues the messages.
--
-- The loop holds the bytes `pkt[i]` to `pkt[len - 1]` as a list, so `i++` drops a byte and
-- `len - i` is the list's length. `none` is a failed assertion of the queue, or a loop that ran
-- out of fuel.
pub mod Rounds
pub mod Total
use minimal_watch_firmware_e.Base.{
  ℕ, zero, suc, ◌+◌, ◌-◌, ◌*◌, Bool, true, false, not, Option, none, some, List, [], ◌∷◌, ltb, leb,
  ◌==◌, if◌then◌else◌, u16, copy, take, drop, length, ◌>>=◌,
}
use minimal_watch_firmware_e.Ble.Message.{Header, Msg, magic, max_payload_size}
use minimal_watch_firmware_e.Ble.Fifo
use minimal_watch_firmware_e.Ble.Fifo.{Fifos, ble_rx}

-- `rx_state_t`
pub data RxState : Type 0 where
  wait_magic read_header read_payload : RxState

-- `rx_ctx_t`
pub record RxCtx : Type 0 where
  pub state : RxState
  pub cur_msg : Msg
  pub offset : ℕ
  pub msg_active : Bool

-- `rx_reset_context`
unfoldable pub reset_context : RxCtx → RxCtx
reset_context r = record r { state = wait_magic; offset = 0; msg_active = false }

-- What one round of the `while` loop leaves: whether the function returned, the bytes that are
-- left, and the state.
pub record Round : Type 0 where
  pub returned : Bool
  pub rest : List ℕ
  pub ctx : RxCtx
  pub fifos : Fifos

abbrev pub go_on : List ℕ → RxCtx → Fifos → Option Round
go_on rest r q = some (record { returned = false; rest = rest; ctx = r; fifos = q })

abbrev pub return : List ℕ → RxCtx → Fifos → Option Round
return rest r q = some (record { returned = true; rest = rest; ctx = r; fifos = q })

-- `case RX_WAIT_MAGIC`, at the byte `b`.
unfoldable pub on_wait_magic : ℕ → List ℕ → RxCtx → Fifos → Option Round
on_wait_magic b bs r q =
    if not (b == magic)
    then go_on bs r q
    else if ltb (length bs + 1) 4
    then return (b ∷ bs) r q
    else go_on bs (record r { state = read_header }) q

-- The message in `cur_msg` is complete.
abbrev pub finish : List ℕ → RxCtx → Fifos → Option Round
finish rest r q = do
  (_, q') ← Fifo.add_msg (some r.cur_msg) ble_rx q
  go_on rest (record r { msg_active = false; state = wait_magic }) q'

abbrev pub with_header : ℕ → ℕ → ℕ → RxCtx → RxCtx
with_header opcode req_app len r = record r {
  cur_msg = record (r.cur_msg) { hdr = record { opcode = opcode; req_app = req_app; len = len } };
}

-- `case RX_READ_HEADER`. A length that is too large puts the three bytes back.
unfoldable pub on_read_header : List ℕ → RxCtx → Fifos → Option Round
on_read_header (opcode ∷ req_app ∷ len ∷ bs) r q =
    let r' = with_header opcode req_app len r in
    let r'' = record r' { offset = 0; msg_active = true } in
    if ltb max_payload_size len
    then go_on (opcode ∷ req_app ∷ len ∷ bs) (record r' { state = wait_magic; msg_active = false })
        q
    else if len == 0
    then finish bs r'' q
    else go_on bs (record r'' { state = read_payload }) q
on_read_header bs r q = return bs r q

abbrev pub chunk : RxCtx → List ℕ → ℕ
chunk r bs =
    let remaining_msg = u16 (r.cur_msg.hdr.len + 65536 - r.offset) in
    if ltb remaining_msg (length bs) then remaining_msg else length bs

abbrev pub filled : RxCtx → List ℕ → RxCtx
filled r bs = record r {
  cur_msg = record (r.cur_msg) { payload = copy r.cur_msg.payload r.offset (take (chunk r bs) bs) };
  offset = u16 (r.offset + chunk r bs);
}

-- `case RX_READ_PAYLOAD`
unfoldable pub on_read_payload : List ℕ → RxCtx → Fifos → Option Round
on_read_payload bs r q =
    if ltb r.cur_msg.hdr.len r.offset
    then go_on bs (record r { state = wait_magic; msg_active = false }) q
    else if leb r.cur_msg.hdr.len (filled r bs).offset
    then finish (drop (chunk r bs) bs) (filled r bs) q
    else go_on (drop (chunk r bs) bs) (filled r bs) q

-- The `switch`, at a byte that is there.
abbrev pub dispatch : RxState → ℕ → List ℕ → RxCtx → Fifos → Option Round
dispatch wait_magic b bs r q = on_wait_magic b bs r q
dispatch read_header b bs r q = on_read_header (b ∷ bs) r q
dispatch read_payload b bs r q = on_read_payload (b ∷ bs) r q

-- `while (i < len)`
unfoldable pub parse_loop : ℕ → List ℕ → RxCtx → Fifos → Option (RxCtx × Fifos)
parse_loop zero bs r q = none
parse_loop (suc fuel) [] r q = some (r, q)
parse_loop (suc fuel) (b ∷ bs) r q = dispatch r.state b bs r q >>= λ o.
    let rest = parse_loop fuel o.rest o.ctx o.fifos in
    if o.returned then some (o.ctx, o.fifos) else rest

-- What the flag `msg_cont` does before the loop.
abbrev pub on_flag : ℕ → RxCtx → RxCtx
on_flag msg_cont r =
    if msg_cont == 0
    then record r { state = wait_magic; offset = 0; msg_active = false }
    else if not r.msg_active
    then record r { state = wait_magic; offset = 0 }
    else r

-- `ble_retrieve_packet`; none for the null pointer.
unfoldable pub retrieve_packet : Option (List ℕ) → RxCtx → Fifos → Option (RxCtx × Fifos)
retrieve_packet none r q = some (r, q)
retrieve_packet (some []) r q = some (r, q)
retrieve_packet (some (msg_cont ∷ bs)) r q =
    parse_loop (2 * length bs + 2) bs (on_flag msg_cont r) q
