-- ===== src/Ble/Multichunk.antt =====
-- components/ble_manager/src/ble_multichunk_handler.c: messages that come in several chunks.
--
-- Memory is checked: a block knows its size, and a write outside it, a write through the null pointer
-- or a read behind a message's payload array gives `none`, as does a failed assertion or a loop that
-- runs out of fuel. `malloc` and `esp_rom_crc32_le` belong to the C library and to the chip's ROM, and
-- are arguments; `free` only ends a block's life, which no other pointer reaches.
pub mod Stages
pub mod Safe
pub mod Crc
pub mod Chunks
pub mod Transfer
mod Tests
use minimal_watch_firmware_e.Base.{
  ℕ, zero, suc, ◌+◌, ◌-◌, ◌*◌, ◌^◌, Bool, true, false, not, ◌&&◌, ◌||◌, Option, none, some, List,
  [], ◌∷◌, ltb, leb, ◌==◌, if◌then◌else◌, u8, u16, u32, copy, read, length, ◌>>=◌,
}
use Prim.Native.Nat.{bit_or}
use minimal_watch_firmware_e.Ble.Message.{Msg, max_payload_size}

-- BLE_MAX_MULTICHUNK_SIZE
abbrev pub max_multichunk_size : ℕ
max_multichunk_size = 2048

-- BLE_MULTICHUNK_MAGIC
abbrev pub multichunk_magic : ℕ
multichunk_magic = 0xB9

-- `parser_state_t`
pub data ParserState : Type 0 where
  reading_header reading_chunks reading_crc invalid : ParserState

-- `multichunk_header_t`
pub record ChunkHeader : Type 0 where
  pub opcode : ℕ
  pub total_chunks : ℕ
  pub total_size : ℕ

-- A block that `malloc` gave.
pub record Block : Type 0 where
  pub size : ℕ
  pub bytes : ℕ → ℕ

-- `multichunk_parser_t`
pub record Parser : Type 0 where
  pub state : ParserState
  pub hdr : ChunkHeader
  pub curr_chunk_id : ℕ
  pub req_app : ℕ
  pub read_size : ℕ
  pub crc : ℕ
  pub out_data : Option Block

-- `ble_multichunk_msg_t`
pub record Multi : Type 0 where
  pub opcode : ℕ
  pub req_app : ℕ
  pub len : ℕ
  pub content : Option Block

-- All bytes zero, which is also how the parser starts.
abbrev pub cleared : Parser
cleared = record {
  state = reading_header;
  hdr = record { opcode = 0; total_chunks = 0; total_size = 0 };
  curr_chunk_id = 0;
  req_app = 0;
  read_size = 0;
  crc = 0;
  out_data = none;
}

-- `reset_multichunk_parser`
abbrev pub reset : Parser → Parser
reset p = cleared

-- `memcpy` into a block.
abbrev pub write_block : Option Block → ℕ → List ℕ → Option Block
write_block none i xs = none
write_block (some b) i xs =
    if leb (i + length xs) b.size then some (record b { bytes = copy b.bytes i xs }) else none

-- `n` bytes of a message's payload array.
abbrev pub read_payload : Msg → ℕ → ℕ → Option (List ℕ)
read_payload m i n = if leb (i + n) max_payload_size then some (read m.payload i n) else none

-- Whether the call has returned, perhaps with a message that was handed to the handler, or goes on
-- at an offset into the chunk.
pub data Flow : Type 0 where
  returned : Parser → Option Multi → Flow
  going : Parser → ℕ → Flow

-- The header's fields, as the message has them.
abbrev pub headed : Parser → Msg → Parser
headed p m = record p {
  hdr = record {
    opcode = m.payload 1;
    total_chunks = m.payload 2;
    total_size = u16 (bit_or (u16 (m.payload 3 * 256)) (m.payload 4));
  };
}

-- `read_multichunk_header`
unfoldable pub read_multichunk_header : Parser → Msg → Bool × Parser
read_multichunk_header p m =
    if leb m.hdr.len 6 || ltb max_payload_size m.hdr.len
    then (false, p)
    else if not (m.payload 0 == multichunk_magic)
    then (false, p)
    else if (headed p m).hdr.total_chunks == 0 || (headed p m).hdr.total_size == 0
    then (false, headed p m)
    else if ltb max_multichunk_size (headed p m).hdr.total_size
    then (false, headed p m)
    else (true, headed p m)

-- A header was read, and `malloc` was called.
abbrev pub opened : Parser → Msg → Option (ℕ → ℕ) → Flow
opened p m none = returned (reset p) none
opened p m (some bytes) =
    going
      (record p {
        req_app = m.hdr.req_app;
        state = reading_chunks;
        out_data = some (record { size = p.hdr.total_size; bytes = bytes });
      })
      0

-- `if(parser.state == PARSER_STATE_READ_HEADER)`
abbrev pub header_stage : (ℕ → Option (ℕ → ℕ)) → Parser → Msg → ParserState → Flow
header_stage malloc p m reading_header =
    let (ok, p') = read_multichunk_header p m in
    if not ok then returned (reset p') none else opened p' m (malloc p'.hdr.total_size)
header_stage malloc p m reading_chunks = going p 0
header_stage malloc p m reading_crc = going p 0
header_stage malloc p m invalid = going p 0

-- The chunk's identifier stands behind the header in the first message, and first in the others.
abbrev pub id_offset : Parser → ℕ
id_offset p = if p.curr_chunk_id == 0 then 5 else 0

-- `chunk_length`, first what the message holds and then no more than what is missing.
abbrev pub chunk_length : Parser → Msg → ℕ
chunk_length p m =
    let held = u8 (m.hdr.len + 256 - (id_offset p + 1)) in
    if ltb (p.hdr.total_size - p.read_size) held then u8 (p.hdr.total_size - p.read_size) else held

abbrev pub taken : Parser → ℕ → Option Block → Parser
taken p n data' = record p {
  out_data = data';
  read_size = u16 (p.read_size + n);
  curr_chunk_id = u8 (p.curr_chunk_id + 1);
}

-- The three tests behind a chunk.
abbrev pub after_chunk : Parser → ℕ → Flow
after_chunk p offset =
    if p.read_size == p.hdr.total_size && not (p.curr_chunk_id == p.hdr.total_chunks)
    then returned (reset p) none
    else if p.curr_chunk_id == p.hdr.total_chunks && not (p.read_size == p.hdr.total_size)
    then returned (reset p) none
    else if p.curr_chunk_id == p.hdr.total_chunks && p.read_size == p.hdr.total_size
    then going (record p { state = reading_crc; read_size = 0 }) offset
    else going p offset

-- The copy of a chunk's bytes.
abbrev pub copy_chunk : Parser → Msg → Option Flow
copy_chunk p m = do
  xs ← read_payload m (id_offset p + 1) (chunk_length p m)
  block ← write_block p.out_data p.read_size xs
  some (
      after_chunk (taken p (chunk_length p m) (some block))
        (u8 (id_offset p + 1 + chunk_length p m)))

-- `if(parser.state == PARSER_STATE_READ_CHUNKS)`
abbrev pub chunks_stage : Parser → Msg → ℕ → ParserState → Option Flow
chunks_stage p m offset reading_chunks =
    if leb m.hdr.len (id_offset p + 1)
    then some (returned (reset p) none)
    else if ltb p.hdr.total_size p.read_size
    then some (returned (reset p) none)
    else if not (m.payload (id_offset p) == p.curr_chunk_id)
    then some (returned (reset p) none)
    else copy_chunk p m
chunks_stage p m offset reading_header = some (going p offset)
chunks_stage p m offset reading_crc = some (going p offset)
chunks_stage p m offset invalid = some (going p offset)

-- `parser.crc |= (uint32_t)byte << (3U-parser.read_size) * 8U`
abbrev pub crc_byte : Parser → ℕ → Parser
crc_byte p b = record p {
  crc = bit_or p.crc (u32 (b * 2 ^ ((3 - p.read_size) * 8)));
  read_size = u16 (p.read_size + 1);
}

-- The loop over the bytes of the CRC.
unfoldable pub crc_loop : ℕ → Parser → Msg → ℕ → Option (Parser × ℕ)
crc_loop zero p m offset = none
crc_loop (suc fuel) p m offset =
    let rest = do
      xs ← read_payload m offset 1
      crc_loop fuel (crc_byte p (m.payload offset)) m (u8 (offset + 1))
    in if not (p.read_size == 4) && ltb offset m.hdr.len then rest else some (p, offset)

-- The bytes of a block that `esp_rom_crc32_le` reads.
abbrev pub block_bytes : Option Block → ℕ → Option (List ℕ)
block_bytes none n = none
block_bytes (some b) n = if leb n b.size then some (read b.bytes 0 n) else none

-- The CRC of the whole is compared, and the handler is called with the whole.
abbrev pub hand_over : (ℕ → List ℕ → ℕ) → Parser → List ℕ → Parser × Option Multi
hand_over crc32 p bytes = if not (crc32 0 bytes == p.crc) then (reset p, none) else (
  reset (record p { out_data = none }),
  some (record {
    opcode = p.hdr.opcode;
    req_app = p.req_app;
    len = p.hdr.total_size;
    content = p.out_data;
  }),
)

-- Behind the loop.
abbrev pub check_crc : (ℕ → List ℕ → ℕ) → Parser → Msg → ℕ → Option (Parser × Option Multi)
check_crc crc32 p m offset =
    let checked = do bytes ← block_bytes p.out_data p.hdr.total_size; some (hand_over crc32 p bytes)
    in if p.read_size == 4
      then if not (offset == m.hdr.len) then some (reset p, none) else checked
      else some (p, none)

-- `if(parser.state == PARSER_STATE_READ_CRC)`
abbrev pub crc_stage :
    (ℕ → List ℕ → ℕ) → Parser → Msg → ℕ → ParserState → Option (Parser × Option Multi)
crc_stage crc32 p m offset reading_crc = do
  (p', offset') ← crc_loop (m.hdr.len + 1) p m offset
  check_crc crc32 p' m offset'
crc_stage crc32 p m offset reading_header = some (p, none)
crc_stage crc32 p m offset reading_chunks = some (p, none)
crc_stage crc32 p m offset invalid = some (p, none)

abbrev pub run_crc : (ℕ → List ℕ → ℕ) → Msg → Flow → Option (Parser × Option Multi)
run_crc crc32 m (returned p out) = some (p, out)
run_crc crc32 m (going p offset) = crc_stage crc32 p m offset p.state

abbrev pub run_chunks : Msg → Flow → Option Flow
run_chunks m (returned p out) = some (returned p out)
run_chunks m (going p offset) = chunks_stage p m offset p.state

-- `parse_new_chunk`, with a handler that is not null: the parser, and what the handler is called
-- with, if it is.
unfoldable pub parse_new_chunk :
    (ℕ → Option (ℕ → ℕ)) → (ℕ → List ℕ → ℕ) → Option Msg → Parser → Option (Parser × Option Multi)
parse_new_chunk malloc crc32 none p = some (reset p, none)
parse_new_chunk malloc crc32 (some m) p = do
  flow ← run_chunks m (header_stage malloc p m p.state)
  run_crc crc32 m flow
