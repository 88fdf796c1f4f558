-- ===== src/Ble/Multichunk/Chunks.antt =====
-- One message of a transfer in ble_multichunk_handler.c: a chunk, or the last chunk with the CRC.
use minimal_watch_firmware_e.Base.{
  ℕ, zero, suc, ◌+◌, ◌/◌, ◌%◌, ◌≤◌, ◌<◌, ◌≡◌, ◌∙◌, refl, ap, ap₂, true, false, none, some, List, [],
  ◌∷◌, ◌++◌, arith, ltb, leb, ◌==◌, ==_iff, if◌then◌else◌, u8, u16, copy, read, length, length-read,
  read-copy_extend, nth, tail, ◌>>=◌,
}
use minimal_watch_firmware_e.Ble.Message.{Msg, max_payload_size}
use minimal_watch_firmware_e.Ble.Multichunk.{
  reading_chunks, reading_crc, ChunkHeader, Block, Parser, Multi, cleared, going, multichunk_magic,
  chunk_length, taken, after_chunk, check_crc, run_crc, run_chunks,
}
use minimal_watch_firmware_e.Ble.Multichunk.Safe.{copy_run}
use minimal_watch_firmware_e.Ble.Multichunk.Crc.{
  crc_word, crc_of, count_of, count_of-length, crc_loop-bytes,
}

-- What a message's payload array says, as far as its length goes.
abbrev pub body : Msg → List ℕ
body m = read m.payload 0 m.hdr.len

-- In front of the first chunk stands the header of the whole.
abbrev pub front : ChunkHeader → ℕ → List ℕ
front h zero =
    multichunk_magic ∷ h.opcode ∷ h.total_chunks ∷ h.total_size / 256 ∷ h.total_size % 256 ∷ []
front h (suc k) = []

-- The messages' payloads, one behind the other, are the rest of the CRC, and none follows it.
abbrev pub CrcIn : List ℕ → List Msg → Type 0
CrcIn [] [] = Unit {0}
CrcIn [] (m ∷ ms) = ⊥
CrcIn (c ∷ cs) [] = ⊥
CrcIn (c ∷ cs) (m ∷ ms) =
    (m.hdr.len ≤ max_payload_size)
    × ((later : List ℕ) × (c ∷ cs ≡ body m ++ later) × CrcIn later ms)

-- The messages `ms` carry the chunks from the `k`th on, where `acc` is what went before: each has a
-- chunk of some bytes. Of the four bytes of the CRC some, or all, or none stand behind the last chunk,
-- and the others come in later messages.
pub data Carries (crc32 : ℕ → List ℕ → ℕ) (h : ChunkHeader)
    : ℕ → List ℕ → List Msg → List ℕ → Type 0 where
  ends :
      {k : ℕ} {acc : List ℕ} {m : Msg} {ms : List Msg} (d : List ℕ) (c0 c1 c2 c3 : ℕ)
      (first later : List ℕ)
      → m.hdr.len ≤ max_payload_size
      → body m ≡ front h k ++ ((k ∷ d) ++ first)
      → 0 < length d
      → k + 1 ≡ h.total_chunks
      → length acc + length d ≡ h.total_size
      → c0 < 256
      → c1 < 256
      → c2 < 256
      → c3 < 256
      → crc32 0 (acc ++ d) ≡ crc_word c0 c1 c2 c3
      → c0 ∷ c1 ∷ c2 ∷ c3 ∷ [] ≡ first ++ later
      → CrcIn later ms
      → Carries crc32 h k acc (m ∷ ms) (acc ++ d)
  goes :
      {k : ℕ} {acc : List ℕ} {m : Msg} {ms : List Msg} {all : List ℕ} (d : List ℕ)
      → m.hdr.len ≤ max_payload_size
      → body m ≡ front h k ++ (k ∷ d)
      → 0 < length d
      → k + 1 < h.total_chunks
      → length acc + length d < h.total_size
      → Carries crc32 h (k + 1) (acc ++ d) ms all
      → Carries crc32 h k acc (m ∷ ms) all

-- The parser has `n` bytes in the block `b`, and waits for chunk `k`.
abbrev pub at_chunk : ChunkHeader → ℕ → ℕ → ℕ → Block → Parser
at_chunk h app k n b = record {
  state = reading_chunks;
  hdr = h;
  curr_chunk_id = k;
  req_app = app;
  read_size = n;
  crc = 0;
  out_data = some b;
}

abbrev pub start : ℕ → ℕ
start k = if k == 0 then 5 else 0

abbrev pub extended : Block → ℕ → List ℕ → Block
extended b n d = record b { bytes = copy b.bytes n d }

-- The chunk `d` is copied, whatever follows it.
chunk_run :
    (h : ChunkHeader) (app k n : ℕ) (b : Block) (d : List ℕ) (m : Msg)
    → read m.payload (start k) (suc (length d)) ≡ k ∷ d
    → 0 < length d
    → start k + suc (length d) ≤ m.hdr.len
    → m.hdr.len ≤ 250
    → chunk_length (at_chunk h app k n b) m ≡ length d
    → n + length d ≤ h.total_size
    → h.total_size ≤ 2048
    → b.size ≡ h.total_size
    → k < 255
    → run_chunks m (going (at_chunk h app k n b) 0)
      ≡ some (
          after_chunk
            (at_chunk h app (k + 1) (n + length d) (extended b n d))
            (start k + 1 + length d))
chunk_run h app k n b d m e pos fits l c room small size few =
    let p = at_chunk h app k n b in
    let long : leb m.hdr.len (start k + 1) ≡ false = ground arith in
    let within : ltb h.total_size n ≡ false = ground arith in
    let mine : (m.payload (start k) == k) ≡ true = (==_iff _ _).1 (ap (nth 0) e) in
    let chunk : read m.payload (start k + 1) (length d) ≡ d = ap tail e in
    let len = length-read m.payload (start k + 1) (chunk_length p m) in
    rw (long, within, mine)
      (copy_run p m b refl (ground arith) (ground (arith, len))
        ∙ ap
            (λ j. some (
              after_chunk (taken p j (some (extended b n (read m.payload (start k + 1) j))))
                (u8 (start k + 1 + j))))
            c
        ∙ ap
            (λ xs. some (
              after_chunk (taken p (length d) (some (extended b n xs)))
                (u8 (start k + 1 + length d))))
            chunk
        ∙ normal (u16 (n + length d)) (u8 (k + 1)) (u8 (start k + 1 + length d)) (omega arith)
            (omega arith) (omega arith))
  where
    normal :
        (r i o : ℕ)
        → r ≡ n + length d
        → i ≡ k + 1
        → o ≡ start k + 1 + length d
        → some (after_chunk (at_chunk h app i r (extended b n d)) o)
          ≡ some (
              after_chunk
                (at_chunk h app (k + 1) (n + length d) (extended b n d))
                (start k + 1 + length d))
    normal r i o er ei eo =
        ap₂ (λ (x y : ℕ). some (after_chunk (at_chunk h app x y (extended b n d)) o)) ei er
        ∙ ap (λ z. some (after_chunk (at_chunk h app (k + 1) (n + length d) (extended b n d)) z)) eo

extended-read :
    (b : Block) (acc d : List ℕ)
    → read b.bytes 0 (length acc) ≡ acc
    → read (extended b (length acc) d).bytes 0 (length acc + length d) ≡ acc ++ d
extended-read b acc d e = read-copy_extend b.bytes (length acc) d ∙ ap (λ x. x ++ d) e

-- A chunk that is not the last.
pub goes_run :
    (crc32 : ℕ → List ℕ → ℕ) (h : ChunkHeader) (app k n : ℕ) (b : Block) (d : List ℕ) (m : Msg)
    → read m.payload (start k) (suc (length d)) ≡ k ∷ d
    → 0 < length d
    → start k + suc (length d) ≡ m.hdr.len
    → m.hdr.len ≤ 250
    → n + length d < h.total_size
    → h.total_size ≤ 2048
    → b.size ≡ h.total_size
    → k + 1 < h.total_chunks
    → h.total_chunks < 256
    → (run_chunks m (going (at_chunk h app k n b) 0) >>= λ g. run_crc crc32 m g)
      ≡ some (at_chunk h app (k + 1) (n + length d) (extended b n d), none)
goes_run crc32 h app k n b d m e pos fits l room small size more few =
    let held : chunk_length (at_chunk h app k n b) m ≡ length d = ground arith in
    ap (λ o. o >>= λ g. run_crc crc32 m g)
      (chunk_run h app k n b d m e pos (omega arith) l held (omega arith) small size (omega arith))
    ∙ quiet
  where
    quiet :
        run_crc crc32 m (
          after_chunk
            (at_chunk h app (k + 1) (n + length d) (extended b n d))
            (start k + 1 + length d))
        ≡ some (at_chunk h app (k + 1) (n + length d) (extended b n d), none)
    quiet =
        let some_left : (n + length d == h.total_size) ≡ false = ground arith in
        let not_last : (k + 1 == h.total_chunks) ≡ false = ground arith in
        rw (some_left, not_last) refl

abbrev pub whole : ChunkHeader → ℕ → Block → Multi
whole h app b = record { opcode = h.opcode; req_app = app; len = h.total_size; content = some b }

-- All bytes are there, and `i` bytes of the CRC, which make `c`.
abbrev pub at_crc : ChunkHeader → ℕ → ℕ → Block → (i c : ℕ) → Parser
at_crc h app k b i c = record {
  state = reading_crc;
  hdr = h;
  curr_chunk_id = k;
  req_app = app;
  read_size = i;
  crc = c;
  out_data = some b;
}

-- The bytes at the end of a message of the CRC: some of it is still missing, or it is all there.
pub crc_more :
    (crc32 : ℕ → List ℕ → ℕ) (h : ChunkHeader) (app k o i c : ℕ) (b : Block) (m : Msg) (xs : List ℕ)
    → read m.payload o (length xs) ≡ xs
    → o + length xs ≡ m.hdr.len
    → m.hdr.len ≤ 250
    → i + length xs < 4
    → run_crc crc32 m (going (at_crc h app k b i c) o)
      ≡ some (at_crc h app k b (i + length xs) (crc_of i c xs), none)
crc_more crc32 h app k o i c b m xs e end l few =
    let count = count_of-length i xs (omega arith) in
    let missing : (count_of i xs == 4) ≡ false = ground (arith, count) in
    ap (λ r. r >>= λ (x : Parser × ℕ). check_crc crc32 x.0 m x.1)
      (crc_loop-bytes xs (m.hdr.len + 1) (at_crc h app k b i c) m o (omega arith) (omega arith) end
        l e)
    ∙ rw missing (ap (λ j. some (at_crc h app k b j (crc_of i c xs), none)) count)

pub crc_done :
    (crc32 : ℕ → List ℕ → ℕ) (h : ChunkHeader) (app k o i c : ℕ) (b : Block) (m : Msg) (xs : List ℕ)
    → read m.payload o (length xs) ≡ xs
    → o + length xs ≡ m.hdr.len
    → m.hdr.len ≤ 250
    → i + length xs ≡ 4
    → b.size ≡ h.total_size
    → crc32 0 (read b.bytes 0 h.total_size) ≡ crc_of i c xs
    → run_crc crc32 m (going (at_crc h app k b i c) o) ≡ some (cleared, some (whole h app b))
crc_done crc32 h app k o i c b m xs e end l four size good =
    let count = count_of-length i xs (omega arith) in
    let held : leb h.total_size b.size ≡ true = ground arith in
    let full : (count_of i xs == 4) ≡ true = (==_iff _ _).1 (count ∙ four) in
    let same : (crc32 0 (read b.bytes 0 h.total_size) == crc_of i c xs) ≡ true =
      (==_iff _ _).1 good in
    let last : (m.hdr.len == m.hdr.len) ≡ true = (==_iff _ _).1 refl in
    ap (λ r. r >>= λ (x : Parser × ℕ). check_crc crc32 x.0 m x.1)
      (crc_loop-bytes xs (m.hdr.len + 1) (at_crc h app k b i c) m o (omega arith) (omega arith) end
        l e)
    ∙ rw (full, last, held, same) refl

-- The last chunk leads to the CRC, at what stands behind the chunk.
pub ends_run :
    (crc32 : ℕ → List ℕ → ℕ) (h : ChunkHeader) (app k n : ℕ) (b : Block) (d : List ℕ) (m : Msg)
    → read m.payload (start k) (suc (length d)) ≡ k ∷ d
    → 0 < length d
    → start k + suc (length d) ≤ m.hdr.len
    → m.hdr.len ≤ 250
    → n + length d ≡ h.total_size
    → h.total_size ≤ 2048
    → b.size ≡ h.total_size
    → k + 1 ≡ h.total_chunks
    → h.total_chunks < 256
    → (run_chunks m (going (at_chunk h app k n b) 0) >>= λ g. run_crc crc32 m g)
      ≡ run_crc crc32 m (going (at_crc h app (k + 1) (extended b n d) 0 0) (start k + 1 + length d))
ends_run crc32 h app k n b d m e pos fits l room small size all few =
    let held : chunk_length (at_chunk h app k n b) m ≡ length d = ground arith in
    ap (λ o. o >>= λ g. run_crc crc32 m g)
      (chunk_run h app k n b d m e pos fits l held (omega arith) small size (omega arith))
    ∙ ap (run_crc crc32 m) turns
  where
    turns :
        after_chunk
          (at_chunk h app (k + 1) (n + length d) (extended b n d))
          (start k + 1 + length d)
        ≡ going (at_crc h app (k + 1) (extended b n d) 0 0) (start k + 1 + length d)
    turns =
        let full : (n + length d == h.total_size) ≡ true = (==_iff _ _).1 room in
        let last : (k + 1 == h.total_chunks) ≡ true = (==_iff _ _).1 all in rw (full, last) refl
