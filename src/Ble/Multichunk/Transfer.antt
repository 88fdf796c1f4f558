-- ===== src/Ble/Multichunk/Transfer.antt =====
-- A message that is sent in chunks the way ble_multichunk_handler.c describes comes out whole.
use mathlib.Core.Path.{subst}
use minimal_watch_firmware_e.Base.{
  ℕ, zero, suc, ◌+◌, ◌*◌, ◌/◌, ◌%◌, ◌≤◌, ◌<◌, ◌≡◌, ◌∙◌, refl, sym, ap, ap₂, true, false, ◌||◌,
  Option, none, some, List, [], ◌∷◌, ◌++◌, append-nil, arith, ltb, leb, ◌==◌, ==_iff, u16, read,
  length, length-append, length-read, read_split, read-copy_extend, nth, tail, ◌>>=◌,
}
use Prim.Native.Nat.{bit_or}
use minimal_watch_firmware_e.Ble.Multichunk.Crc.{
  crc_of, count_of-length, crc_of-append, crc_of-word,
}
use minimal_watch_firmware_e.Base.Bits.{bit_or-sum}
use minimal_watch_firmware_e.Ble.Message.{Msg, max_payload_size}
use minimal_watch_firmware_e.Ble.Multichunk.{
  reading_header, ChunkHeader, Block, Parser, Multi, cleared, Flow, going, read_multichunk_header,
  headed, multichunk_magic, max_multichunk_size, header_stage, run_crc, run_chunks, parse_new_chunk,
}
use minimal_watch_firmware_e.Ble.Multichunk.Chunks.{
  Carries, CrcIn, at_chunk, at_crc, crc_done, crc_more, body, ends, ends_run, extended, front, goes,
  goes_run, start, whole,
}

-- One message after the other, and what the handler is called with.
abbrev pub parse_all :
    (ℕ → Option (ℕ → ℕ)) → (ℕ → List ℕ → ℕ) → List Msg → Parser → Option (Parser × List Multi)
parse_all malloc crc32 [] p = some (p, [])
parse_all malloc crc32 (m ∷ ms) p = do
  (p', out) ← parse_new_chunk malloc crc32 (some m) p
  (p'', outs) ← parse_all malloc crc32 ms p'
  some (p'', elim out [ none ↦ outs | some x ↦ x ∷ outs ])

parse_all-step :
    (malloc : ℕ → Option (ℕ → ℕ)) (crc32 : ℕ → List ℕ → ℕ) (m : Msg) (ms : List Msg) (p : Parser)
    {p' p'' : Parser} {outs : List Multi}
    → parse_new_chunk malloc crc32 (some m) p ≡ some (p', none)
    → parse_all malloc crc32 ms p' ≡ some (p'', outs)
    → parse_all malloc crc32 (m ∷ ms) p ≡ some (p'', outs)
parse_all-step malloc crc32 m ms p a b = rw (a, b) refl

parse_all-last :
    (malloc : ℕ → Option (ℕ → ℕ)) (crc32 : ℕ → List ℕ → ℕ) (m : Msg) (p : Parser) {p' : Parser}
    {x : Multi}
    → parse_new_chunk malloc crc32 (some m) p ≡ some (p', some x)
    → parse_all malloc crc32 (m ∷ []) p ≡ some (p', x ∷ [])
parse_all-last malloc crc32 m p a = rw a refl

length-front : (h : ChunkHeader) (k : ℕ) → length (front h k) ≡ start k
length-front h zero = refl
length-front h (suc k) = ground arith

-- The parts of a message.
cut_message :
    (h : ChunkHeader) (k : ℕ) (d behind : List ℕ) (m : Msg)
    → body m ≡ front h k ++ ((k ∷ d) ++ behind)
    → (read m.payload (start k) (suc (length d)) ≡ k ∷ d)
      × (read m.payload (start k + 1 + length d) (length behind) ≡ behind)
      × (start k + 1 + length d + length behind ≡ m.hdr.len)
cut_message h k d behind m e =
    let (a, rest, total) = read_split m.payload 0 m.hdr.len (front h k) ((k ∷ d) ++ behind) e in
    let at : 0 + length (front h k) ≡ start k = omega (arith, length-front h k) in
    let rest' : read m.payload (start k) (length ((k ∷ d) ++ behind)) ≡ (k ∷ d) ++ behind =
      ap (λ i. read m.payload i (length ((k ∷ d) ++ behind))) (sym at) ∙ rest in
    let (x, y, sum) =
      read_split m.payload (start k) (length ((k ∷ d) ++ behind)) (k ∷ d) behind rest' in
    (
      x,
      ap (λ i. read m.payload i (length behind)) (omega arith) ∙ y,
      omega (arith, length-front h k, total, length-append d behind),
    )

parse_at :
    (malloc : ℕ → Option (ℕ → ℕ)) (crc32 : ℕ → List ℕ → ℕ) (m : Msg) (p : Parser) (flow : Flow)
    {z : Parser × Option Multi}
    → header_stage malloc p m p.state ≡ flow
    → (run_chunks m flow >>= λ g. run_crc crc32 m g) ≡ some z
    → parse_new_chunk malloc crc32 (some m) p ≡ some z
unfolding parse_new_chunk
parse_at malloc crc32 m p flow a b = ap (λ f. run_chunks m f >>= λ g. run_crc crc32 m g) a ∙ b

four_bytes :
    (c0 c1 c2 c3 : ℕ) (first later : List ℕ)
    → c0 ∷ c1 ∷ c2 ∷ c3 ∷ [] ≡ first ++ later
    → 0 + length first + length later ≡ 4
four_bytes c0 c1 c2 c3 first later e =
    let sum : 4 ≡ length (first ++ later) = ap length e in omega (arith, length-append first later)

module _ (malloc : ℕ → Option (ℕ → ℕ)) (crc32 : ℕ → List ℕ → ℕ) (h : ChunkHeader) (app : ℕ)
    (few : h.total_size ≤ 2048) (chunks : h.total_chunks < 256) where
  -- The CRC: its bytes `xs` end the message, and the others come in the messages behind it.
  crc_tail :
      (ms : List Msg) (m : Msg) (p : Parser) (k o i c : ℕ) (b : Block) (xs later : List ℕ)
      → ((z : Parser × Option Multi)
          → run_crc crc32 m (going (at_crc h app k b i c) o) ≡ some z
          → parse_new_chunk malloc crc32 (some m) p ≡ some z)
      → read m.payload o (length xs) ≡ xs
      → o + length xs ≡ m.hdr.len
      → m.hdr.len ≤ 250
      → i + length xs + length later ≡ 4
      → b.size ≡ h.total_size
      → crc32 0 (read b.bytes 0 h.total_size) ≡ crc_of i c (xs ++ later)
      → CrcIn later ms
      → parse_all malloc crc32 (m ∷ ms) p ≡ some (cleared, whole h app b ∷ [])
  crc_tail [] m p k o i c b xs [] step e end l four size good next =
      parse_all-last malloc crc32 m p (
        step _ (
          crc_done crc32 h app k o i c b m xs e end l (omega arith) size
            (good ∙ ap (crc_of i c) (append-nil xs))))
  crc_tail (m' ∷ ms) m p k o i c b xs [] step e end l four size good next = elim next [ ]
  crc_tail [] m p k o i c b xs (y ∷ later) step e end l four size good next = elim next [ ]
  crc_tail (m' ∷ ms) m p k o i c b xs (y ∷ later) step e end l four size good
        (l', (later', e', next)) =
      let count = count_of-length i xs (omega arith) in
      let sum : suc (length later) ≡ length (body m') + length later' =
        ap length e' ∙ length-append (body m') later' in
      parse_all-step malloc crc32 m (m' ∷ ms) p
        (step _ (crc_more crc32 h app k o i c b m xs e end l (omega arith)))
        (crc_tail ms m' (at_crc h app k b (i + length xs) (crc_of i c xs)) k 0 (i + length xs)
          (crc_of i c xs) b (body m') later'
          (λ z r.
            parse_at malloc crc32 m' (at_crc h app k b (i + length xs) (crc_of i c xs))
              (going (at_crc h app k b (i + length xs) (crc_of i c xs)) 0) refl r)
          (ap (read m'.payload 0) (length-read m'.payload 0 m'.hdr.len))
          (omega (arith, length-read m'.payload 0 m'.hdr.len)) l' (omega arith) size
          (good
            ∙ crc_of-append xs i c (y ∷ later)
            ∙ ap₂ (λ j zs. crc_of j (crc_of i c xs) zs) count e')
          next)

  -- The chunks from the `k`th on, once the header is taken.
  carried :
      {k : ℕ} {acc : List ℕ} {ms : List Msg} {all : List ℕ}
      → Carries crc32 h k acc ms all
      → (p : Parser) (b : Block) (n : ℕ) → n ≡ length acc
      → ((m : Msg) (rest : List Msg)
          → ms ≡ m ∷ rest
          → header_stage malloc p m p.state ≡ going (at_chunk h app k n b) 0)
      → b.size ≡ h.total_size
      → read b.bytes 0 n ≡ acc
      → (b' : Block) × (parse_all malloc crc32 ms p ≡ some (cleared, whole h app b' ∷ []))
        × (b'.size ≡ h.total_size)
        × (read b'.bytes 0 h.total_size ≡ all)
  carried {k} {acc}
        (ends {m = m} {ms = ms} d c0 c1 c2 c3 first later l e pos last sum h0 h1 h2 h3 good crc
          next)
        p b n count ready size held =
      let (chunk, tail, total) = cut_message h k d first m e in
      let got : read (extended b n d).bytes 0 h.total_size ≡ acc ++ d =
        ap (read (extended b n d).bytes 0) (omega arith)
        ∙ read-copy_extend b.bytes n d
        ∙ ap (λ x. x ++ d) held in
      (
        extended b n d,
        crc_tail ms m p (k + 1) (start k + 1 + length d) 0 0 (extended b n d) first later
            (λ z r. parse_at malloc crc32 m p (going (at_chunk h app k n b) 0) (ready m ms refl) (
              ends_run crc32 h app k n b d m chunk pos (omega arith) l (omega arith) few size last
                chunks
              ∙ r))
            tail total l (four_bytes c0 c1 c2 c3 first later crc) size
            (ap (crc32 0) got
              ∙ good
              ∙ sym (crc_of-word c0 c1 c2 c3 h0 h1 h2 h3)
              ∙ ap (crc_of 0 0) crc)
            next,
        size,
        got,
      )
  carried {k} {acc} (goes {m = m} {ms = ms} d l e pos more sum next) p b n count ready size held =
      let (chunk, _, total) =
        cut_message h k d [] m (e ∙ ap (λ x. front h k ++ x) (sym (append-nil (k ∷ d)))) in
      let (b', run, size', got) =
        carried next (at_chunk h app (k + 1) (n + length d) (extended b n d)) (extended b n d)
          (n + length d) (omega (arith, length-append acc d)) (λ m rest s. refl) size
          (read-copy_extend b.bytes n d ∙ ap (λ x. x ++ d) held) in
      (
        b',
        parse_all-step malloc crc32 m ms p
            (parse_at malloc crc32 m p (going (at_chunk h app k n b) 0) (ready m ms refl) (
              goes_run crc32 h app k n b d m chunk pos (omega arith) l (omega arith) few size more
                chunks))
            run,
        size',
        got,
      )

-- The first message opens the transfer.
headed_lem :
    (h : ChunkHeader) (m : Msg) (rest : List ℕ)
    → body m ≡ front h 0 ++ rest
    → h.total_size ≤ 2048
    → (headed cleared m).hdr ≡ h
headed_lem h m rest e few =
    let (five, _, _) = read_split m.payload 0 m.hdr.len (front h 0) rest e in
    let hi : m.payload 3 ≡ h.total_size / 256 = ap (nth 3) five in
    let lo : m.payload 4 ≡ h.total_size % 256 = ap (nth 4) five in
    let high : u16 (m.payload 3 * 256) ≡ h.total_size / 256 * 256 = omega (arith, hi) in
    let size : u16 (bit_or (u16 (m.payload 3 * 256)) (m.payload 4)) ≡ h.total_size =
      ap₂ (λ a b. u16 (bit_or a b)) high lo
      ∙ ap u16 (
          bit_or-sum 8 (h.total_size / 256) (h.total_size / 256 * 256) (h.total_size % 256) refl
            (omega arith))
      ∙ omega arith in
    put (m.payload 1) (m.payload 2) _ (ap (nth 1) five) (ap (nth 2) five) size
  where
    put :
        (o c s : ℕ)
        → o ≡ h.opcode
        → c ≡ h.total_chunks
        → s ≡ h.total_size
        → record { opcode = o; total_chunks = c; total_size = s } ≡ h
    put o c s eo ec es i = record { opcode = eo i; total_chunks = ec i; total_size = es i }

header_taken :
    (h : ChunkHeader) (m : Msg) (rest : List ℕ)
    → body m ≡ front h 0 ++ rest
    → 2 ≤ length rest
    → m.hdr.len ≤ 250
    → 0 < h.total_size
    → h.total_size ≤ 2048
    → 0 < h.total_chunks
    → read_multichunk_header cleared m ≡ (true, record cleared { hdr = h })
unfolding read_multichunk_header
header_taken h m rest e two l some_bytes few some_chunks =
    let (five, _, total) = read_split m.payload 0 m.hdr.len (front h 0) rest e in
    let same = headed_lem h m rest e few in
    let length_ok : (leb m.hdr.len 6 || ltb max_payload_size m.hdr.len) ≡ false = ground arith in
    let magic_ok : (m.payload 0 == multichunk_magic) ≡ true = (==_iff _ _).1 (ap (nth 0) five) in
    let present : ((headed cleared m).hdr.total_chunks == 0
          || (headed cleared m).hdr.total_size == 0)
        ≡ false =
      ap (λ (x : ChunkHeader). x.total_chunks == 0 || x.total_size == 0) same ∙ ground arith in
    let small : ltb max_multichunk_size (headed cleared m).hdr.total_size ≡ false =
      ap (λ (x : ChunkHeader). ltb max_multichunk_size x.total_size) same ∙ ground arith in
    rw (length_ok, magic_ok, present, small)
      (ap (λ (x : ChunkHeader). (true, record cleared { hdr = x })) same)

first_opens :
    (malloc : ℕ → Option (ℕ → ℕ)) (h : ChunkHeader) (m : Msg) (bytes : ℕ → ℕ)
    → read_multichunk_header cleared m ≡ (true, record cleared { hdr = h })
    → malloc h.total_size ≡ some bytes
    → header_stage malloc cleared m reading_header
      ≡ going (at_chunk h m.hdr.req_app 0 0 (record { size = h.total_size; bytes = bytes })) 0
first_opens malloc h m bytes a b = rw (a, b) refl

-- The first message of a transfer is long enough for its header and some of its data.
Carries-first :
    {crc32 : ℕ → List ℕ → ℕ} {h : ChunkHeader} {k : ℕ} {acc all : List ℕ} {m : Msg} {ms : List Msg}
    → Carries crc32 h k acc (m ∷ ms) all
    → (rest : List ℕ) × (body m ≡ front h k ++ rest)
      × (2 ≤ length rest)
      × (m.hdr.len ≤ 250)
      × (0 < h.total_chunks)
      × (0 < h.total_size)
Carries-first {k = k} (ends d c0 c1 c2 c3 first later l e pos last sum h0 h1 h2 h3 good crc next) =
    ((k ∷ d) ++ first, e, omega (arith, length-append d first), l, omega arith, omega arith)
Carries-first {k = k} (goes d l e pos more sum next) =
    (k ∷ d, e, omega arith, l, omega arith, omega arith)

abbrev head_or : Msg → List Msg → Msg
head_or m [] = m
head_or m (x ∷ xs) = x

-- Messages that carry a whole as the source's comment describes (a header of at most 255 chunks and
-- 2048 bytes, the chunks in order, the four bytes of the CRC behind the last chunk or in messages of
-- their own, split between them in any way), given one after the other to a cleared parser: if
-- `malloc` finds memory for the whole, no call fails, the handler is called once, with the opcode and
-- the length of the header, the application of the first message and a block of exactly the bytes of
-- the chunks; and the parser is cleared again.
pub parse_all-transfers :
    (malloc : ℕ → Option (ℕ → ℕ)) (crc32 : ℕ → List ℕ → ℕ) (h : ChunkHeader) (m : Msg)
    (ms : List Msg) (all : List ℕ) (bytes : ℕ → ℕ)
    → h.total_size ≤ 2048
    → h.total_chunks < 256
    → malloc h.total_size ≡ some bytes
    → Carries crc32 h 0 [] (m ∷ ms) all
    → (b : Block) × (parse_all malloc crc32 (m ∷ ms) cleared
        ≡ some (
          cleared,
          record {
            opcode = h.opcode;
            req_app = m.hdr.req_app;
            len = h.total_size;
            content = some b;
          }
              ∷ [],
        ))
      × (b.size ≡ h.total_size)
      × (read b.bytes 0 h.total_size ≡ all)
parse_all-transfers malloc crc32 h m ms all bytes few chunks room c =
    let (rest, e, two, l, some_chunks, some_bytes) = Carries-first c in
    carried malloc crc32 h m.hdr.req_app few chunks c cleared
      (record { size = h.total_size; bytes = bytes }) 0 refl
      (λ m' ms' s.
        subst
          (λ x.
            header_stage malloc cleared x reading_header
            ≡ going (at_chunk h m.hdr.req_app 0 0 (record { size = h.total_size; bytes = bytes }))
                0)
          (ap (head_or m) s)
          (first_opens malloc h m bytes (header_taken h m rest e two l some_bytes few some_chunks)
            room))
      refl refl
