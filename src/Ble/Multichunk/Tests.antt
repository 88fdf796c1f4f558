-- ===== src/Ble/Multichunk/Tests.antt =====
-- Runs of ble_multichunk_handler.c on a message of three bytes in two chunks, with the CRC in three pieces.
use minimal_watch_firmware_e.Base.{
  ℕ, zero, suc, ◌≡◌, refl, ◌<◌, Option, some, List, [], ◌∷◌, arith, length, nth, read,
}
use minimal_watch_firmware_e.Ble.Message.{Msg}
use minimal_watch_firmware_e.Ble.Multichunk.{
  ChunkHeader, Block, Parser, Multi, cleared, parse_new_chunk,
}
use minimal_watch_firmware_e.Ble.Multichunk.Stages.{IsOk, IsMsg, waiting}
use minimal_watch_firmware_e.Ble.Multichunk.Safe.{parse_new_chunk-IsOk}
use minimal_watch_firmware_e.Ble.Multichunk.Chunks.{Carries, ends, goes}
use minimal_watch_firmware_e.Ble.Multichunk.Transfer.{parse_all, parse_all-transfers}

abbrev msg_of : List ℕ → Msg
msg_of bytes = record {
  hdr = record { opcode = 0xF0; req_app = 9; len = length bytes };
  payload = λ j. nth j bytes;
}

abbrev some_memory : ℕ → Option (ℕ → ℕ)
some_memory n = some (λ _. 77)

-- In place of a CRC.
abbrev count_crc : ℕ → List ℕ → ℕ
count_crc seed bytes = length bytes

abbrev small_header : ChunkHeader
small_header = record { opcode = 2; total_chunks = 2; total_size = 3 }

abbrev first_msg : Msg
first_msg = msg_of (0xB9 ∷ 2 ∷ 2 ∷ 0 ∷ 3 ∷ 0 ∷ 10 ∷ 11 ∷ [])

-- The last chunk with one byte of the CRC, and the others in messages of their own.
abbrev second_msg : Msg
second_msg = msg_of (1 ∷ 12 ∷ 0 ∷ [])

abbrev third_msg : Msg
third_msg = msg_of (0 ∷ 0 ∷ [])

abbrev fourth_msg : Msg
fourth_msg = msg_of (3 ∷ [])

abbrev sent : List Msg
sent = second_msg ∷ third_msg ∷ fourth_msg ∷ []

carried_in_four : Carries count_crc small_header 0 [] (first_msg ∷ sent) (10 ∷ 11 ∷ 12 ∷ [])
carried_in_four = goes (10 ∷ 11 ∷ []) (omega arith) refl (omega arith) (omega arith) (omega arith) (
    ends (12 ∷ []) 0 0 0 3 (0 ∷ []) (0 ∷ 0 ∷ 3 ∷ []) (omega arith) refl (omega arith) refl refl
      (omega arith) (omega arith) (omega arith) (omega arith) refl refl
      (omega arith, (3 ∷ [], refl, (omega arith, ([], refl, tt)))))

abbrev AllBytes : List ℕ → Type 0
AllBytes [] = Unit {0}
AllBytes (x ∷ xs) = (x < 256) × AllBytes xs

nth_small : (xs : List ℕ) → AllBytes xs → (j : ℕ) → nth j xs < 256
nth_small [] h j = omega arith
nth_small (x ∷ xs) (h, k) zero = h
nth_small (x ∷ xs) (h, k) (suc j) = nth_small xs k j

first_msg-IsMsg : IsMsg first_msg
first_msg-IsMsg = record {
  short = omega arith;
  bytes = nth_small (0xB9 ∷ 2 ∷ 2 ∷ 0 ∷ 3 ∷ 0 ∷ 10 ∷ 11 ∷ []) (omega arith);
}

parse_new_chunk-IsOk_example :
    (p' : Parser) × (out : Option Multi) × (parse_new_chunk some_memory count_crc
        (some first_msg)
        cleared
      ≡ some (p', out))
    × IsOk p'
parse_new_chunk-IsOk_example =
    parse_new_chunk-IsOk some_memory count_crc first_msg cleared (waiting refl refl refl)
      first_msg-IsMsg

parse_all-transfers_example :
    (b : Block) × (parse_all some_memory count_crc (first_msg ∷ sent) cleared
      ≡ some (cleared, record { opcode = 2; req_app = 9; len = 3; content = some b } ∷ []))
    × (b.size ≡ 3)
    × (read b.bytes 0 3 ≡ 10 ∷ 11 ∷ 12 ∷ [])
parse_all-transfers_example =
    parse_all-transfers some_memory count_crc small_header first_msg sent (10 ∷ 11 ∷ 12 ∷ [])
      (λ _. 77) (omega arith) (omega arith) refl carried_in_four
