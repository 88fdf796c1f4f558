-- ===== src/Ble/Multichunk/Stages.antt =====
-- The parser of ble_multichunk_handler.c in order: its invariant, and the stages of a call that read
-- the header and the CRC.
use mathlib.Core.Path.{subst}
use minimal_watch_firmware_e.Base.{
  ℕ, zero, suc, ◌+◌, ◌-◌, ◌≤◌, ◌<◌, ◌≡◌, ◌≢◌, ◌∙◌, refl, sym, ap, ◌⊎◌, inl, inr, true, false, not,
  ◌&&◌, ◌||◌, Option, none, some, List, arith, Bool-cases, Option-cases, ltb, leb, ◌==◌, u8, read,
  ◌>>=◌,
}
use minimal_watch_firmware_e.Ble.Message.{Msg, max_payload_size}
use minimal_watch_firmware_e.Ble.Multichunk.{
  ParserState, reading_header, reading_chunks, reading_crc, invalid, ChunkHeader, Block, Parser,
  Multi, cleared, returned, going, read_multichunk_header, headed, multichunk_magic,
  max_multichunk_size, opened, header_stage, crc_byte, crc_loop, block_bytes, hand_over, check_crc,
  crc_stage,
}

-- The output has a block of the announced size.
pub record HasBlock (p : Parser) : Type 0 where
  pub block : Block
  pub there : p.out_data ≡ some block
  pub sized : block.size ≡ p.hdr.total_size
  pub small : p.hdr.total_size ≤ 2048

-- The parser waits for a header, for a chunk, or for bytes of the CRC.
pub data IsOk (p : Parser) : Type 0 where
  waiting : p.state ≡ reading_header → p.curr_chunk_id ≡ 0 → p.read_size ≡ 0 → IsOk p
  chunking :
      p.state ≡ reading_chunks
      → HasBlock p
      → p.read_size < p.hdr.total_size
      → p.curr_chunk_id < p.hdr.total_chunks
      → p.hdr.total_chunks < 256
      → IsOk p
  finishing : p.state ≡ reading_crc → HasBlock p → p.read_size < 4 → IsOk p

pub cleared-IsOk : IsOk cleared
cleared-IsOk = waiting refl refl refl

-- What a message may be: bytes, and no more of them than the payload array has.
pub record IsMsg (m : Msg) : Type 0 where
  pub short : m.hdr.len ≤ max_payload_size
  pub bytes : (j : ℕ) → m.payload j < 256

-- A header is refused, or it announces some chunks and some bytes, and not too many.
record Announced (p : Parser) (m : Msg) : Type 0 where
  pub accepted : read_multichunk_header p m ≡ (true, headed p m)
  pub some_bytes : 0 < (headed p m).hdr.total_size
  pub few_bytes : (headed p m).hdr.total_size ≤ 2048
  pub some_chunks : 0 < (headed p m).hdr.total_chunks

header_cases : (p : Parser) (m : Msg) → ((read_multichunk_header p m).0 ≡ false) ⊎ Announced p m
unfolding read_multichunk_header
header_cases p m = elim (Bool-cases (leb m.hdr.len 6 || ltb max_payload_size m.hdr.len)) [
  | inl bad ↦ inl (rw bad refl)
  | inr length_ok ↦ elim (Bool-cases (m.payload 0 == multichunk_magic)) [
    | inr bad ↦ inl (rw (length_ok, bad) refl)
    | inl magic_ok ↦
        let chunks = (headed p m).hdr.total_chunks in
        let size = (headed p m).hdr.total_size in
        elim (Bool-cases (chunks == 0 || size == 0)) [
          | inl bad ↦ inl (rw (length_ok, magic_ok, bad) refl)
          | inr present ↦ elim (Bool-cases (ltb max_multichunk_size size)) [
            | inl bad ↦ inl (rw (length_ok, magic_ok, present, bad) refl)
            | inr small ↦ inr (record {
              accepted = rw (length_ok, magic_ok, present, small) refl;
              some_bytes = ground arith;
              few_bytes = ground arith;
              some_chunks = ground arith;
            })
          ]
        ]
  ]
]

pub header_run :
    (malloc : ℕ → Option (ℕ → ℕ)) (p : Parser) (m : Msg)
    → read_multichunk_header p m ≡ (true, headed p m)
    → header_stage malloc p m reading_header
      ≡ opened (headed p m) m (malloc (headed p m).hdr.total_size)
header_run malloc p m e = rw e refl

-- The header stage returns with a cleared parser, or goes on with a parser that is in order and past
-- its header.
pub header_stage-IsOk :
    (malloc : ℕ → Option (ℕ → ℕ)) (p : Parser) (m : Msg) (s : ParserState)
    → p.state ≡ s
    → IsOk p
    → IsMsg m
    → (header_stage malloc p m s ≡ returned cleared none)
      ⊎ ((p' : Parser) × (header_stage malloc p m s ≡ going p' 0)
          × IsOk p'
          × (p'.state ≢ reading_header))
header_stage-IsOk malloc p m reading_header e (waiting s c r) k = elim (header_cases p m) [
  | inl bad ↦ inl (rw bad refl)
  | inr a ↦ elim (Option-cases (malloc (headed p m).hdr.total_size)) [
    | inl full ↦ inl (header_run malloc p m a.accepted ∙ ap (opened (headed p m) m) full)
    | inr (bytes, got) ↦ inr (
      _,
      header_run malloc p m a.accepted ∙ ap (opened (headed p m) m) got,
      chunking refl (record { block = _; there = refl; sized = refl; small = a.few_bytes })
          (omega (arith, a.some_bytes, r)) (omega (arith, a.some_chunks, c)) (k.bytes 2),
      λ h. absurd cc,
    )
  ]
]
header_stage-IsOk malloc p m reading_header e (chunking s b r c n) k = absurd cc
header_stage-IsOk malloc p m reading_header e (finishing s b r) k = absurd cc
header_stage-IsOk malloc p m reading_chunks e v k = inr (p, refl, v, λ h. absurd cc)
header_stage-IsOk malloc p m reading_crc e v k = inr (p, refl, v, λ h. absurd cc)
header_stage-IsOk malloc p m invalid e (waiting s c r) k = absurd cc
header_stage-IsOk malloc p m invalid e (chunking s b r c n) k = absurd cc
header_stage-IsOk malloc p m invalid e (finishing s b r) k = absurd cc

-- The CRC loop takes bytes until it has four, or the message ends.
record Taken (p : Parser) (m : Msg) (p' : Parser) (offset : ℕ) : Type 0 where
  pub same_state : p'.state ≡ p.state
  pub same_hdr : p'.hdr ≡ p.hdr
  pub same_data : p'.out_data ≡ p.out_data
  pub four : p'.read_size ≤ 4

pub crc_step :
    (fuel : ℕ) (p : Parser) (m : Msg) (offset : ℕ) {z : Parser × ℕ}
    → (not (p.read_size == 4) && ltb offset m.hdr.len) ≡ true
    → leb (offset + 1) 250 ≡ true
    → u8 (offset + 1) ≡ offset + 1
    → crc_loop fuel (crc_byte p (m.payload offset)) m (offset + 1) ≡ some z
    → crc_loop (suc fuel) p m offset ≡ some z
unfolding crc_loop
crc_step fuel p m offset more held next e = rw (more, held, next, e) refl

crc_loop-Taken :
    (fuel : ℕ) (p : Parser) (m : Msg) (offset : ℕ)
    → m.hdr.len ≤ 250
    → offset ≤ m.hdr.len
    → m.hdr.len - offset < fuel
    → p.read_size ≤ 4
    → (p' : Parser) × (offset' : ℕ) × (crc_loop fuel p m offset ≡ some (p', offset'))
      × Taken p m p' offset'
unfolding crc_loop
crc_loop-Taken zero p m offset l h f c = absurd (omega arith)
crc_loop-Taken (suc fuel) p m offset l h f c =
    elim (Bool-cases (not (p.read_size == 4) && ltb offset m.hdr.len)) [
      | inr end ↦ (
        p,
        offset,
        rw end refl,
        record { same_state = refl; same_hdr = refl; same_data = refl; four = c },
      )
      | inl more ↦
          let next : u8 (offset + 1) ≡ offset + 1 = ground arith in
          let held : leb (offset + 1) 250 ≡ true = ground arith in
          let (p', offset', e, t) =
            crc_loop-Taken fuel (crc_byte p (m.payload offset)) m (offset + 1) l (ground arith)
              (ground arith) (ground arith) in
          (
            p',
            offset',
            crc_step fuel p m offset more held next e,
            record {
              same_state = t.same_state;
              same_hdr = t.same_hdr;
              same_data = t.same_data;
              four = t.four;
            },
          )
    ]

pub HasBlock-same :
    {p p' : Parser} → p'.hdr ≡ p.hdr → p'.out_data ≡ p.out_data → HasBlock p → HasBlock p'
HasBlock-same {p} {p'} h d b = record {
  block = b.block;
  there = d ∙ b.there;
  sized = b.sized ∙ ap (λ (x : ChunkHeader). x.total_size) (sym h);
  small = subst (λ (x : ChunkHeader). x.total_size ≤ 2048) (sym h) b.small;
}

hand_over-IsOk :
    (crc32 : ℕ → List ℕ → ℕ) (p : Parser) (bytes : List ℕ) → IsOk (hand_over crc32 p bytes).0
hand_over-IsOk crc32 p bytes = elim (Bool-cases (crc32 0 bytes == p.crc)) [
  | inr bad ↦ rw bad cleared-IsOk
  | inl good ↦ rw good cleared-IsOk
]

check_crc-IsOk :
    (crc32 : ℕ → List ℕ → ℕ) (p : Parser) (m : Msg) (offset : ℕ)
    → p.state ≡ reading_crc
    → HasBlock p
    → p.read_size ≤ 4
    → (p' : Parser) × (out : Option Multi) × (check_crc crc32 p m offset ≡ some (p', out)) × IsOk p'
check_crc-IsOk crc32 p m offset s b r = elim (Bool-cases (p.read_size == 4)) [
  | inr short ↦ (p, none, rw short refl, finishing s b (ground arith))
  | inl full ↦ elim (Bool-cases (offset == m.hdr.len)) [
    | inr bad ↦ (cleared, none, rw (full, bad) refl, cleared-IsOk)
    | inl done ↦
        let bytes = read b.block.bytes 0 p.hdr.total_size in
        let held : leb p.hdr.total_size b.block.size ≡ true = ground (arith, b.sized) in
        let all : block_bytes p.out_data p.hdr.total_size ≡ some bytes = simp (b.there, held) in
        (
          (hand_over crc32 p bytes).0,
          (hand_over crc32 p bytes).1,
          rw (full, done, all) refl,
          hand_over-IsOk crc32 p bytes,
        )
  ]
]

pub crc_stage-IsOk :
    (crc32 : ℕ → List ℕ → ℕ) (p : Parser) (m : Msg) (offset : ℕ) (s : ParserState)
    → p.state ≡ s
    → IsOk p
    → m.hdr.len ≤ 250
    → offset ≤ m.hdr.len
    → (p' : Parser) × (out : Option Multi) × (crc_stage crc32 p m offset s ≡ some (p', out))
      × IsOk p'
crc_stage-IsOk crc32 p m offset reading_header e v l h = (p, none, refl, v)
crc_stage-IsOk crc32 p m offset reading_chunks e v l h = (p, none, refl, v)
crc_stage-IsOk crc32 p m offset invalid e v l h = (p, none, refl, v)
crc_stage-IsOk crc32 p m offset reading_crc e (waiting s c r) l h = absurd cc
crc_stage-IsOk crc32 p m offset reading_crc e (chunking s b r c n) l h = absurd cc
crc_stage-IsOk crc32 p m offset reading_crc e (finishing s b r) l h =
    let (p', offset', run, t) =
      crc_loop-Taken (m.hdr.len + 1) p m offset l h (omega arith) (omega arith) in
    let (p'', out, ran, ok) =
      check_crc-IsOk crc32 p' m offset' (t.same_state ∙ s) (HasBlock-same t.same_hdr t.same_data b)
        t.four in
    (p'', out, ap (λ o. o >>= λ (x : Parser × ℕ). check_crc crc32 x.0 m x.1) run ∙ ran, ok)
