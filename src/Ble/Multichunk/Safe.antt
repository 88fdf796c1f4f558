-- ===== src/Ble/Multichunk/Safe.antt =====
-- `parse_new_chunk` returns on every message, and stays inside the memory it owns.
use minimal_watch_firmware_e.Base.{
  ℕ, ◌+◌, ◌-◌, ◌≤◌, ◌<◌, ◌≡◌, ◌∙◌, refl, ap, inl, inr, true, Option, none, some, List, arith,
  Bool-cases, ltb, leb, ◌==◌, u8, copy, read, length, length-read, ◌>>=◌,
}
use minimal_watch_firmware_e.Ble.Message.{Msg, max_payload_size}
use minimal_watch_firmware_e.Ble.Multichunk.{
  ParserState, reading_header, reading_chunks, reading_crc, invalid, Block, Parser, Multi, cleared,
  Flow, returned, going, header_stage, id_offset, chunk_length, taken, after_chunk, copy_chunk,
  chunks_stage, run_crc, run_chunks, parse_new_chunk,
}
use minimal_watch_firmware_e.Ble.Multichunk.Stages.{
  HasBlock, HasBlock-same, IsMsg, IsOk, chunking, cleared-IsOk, crc_stage-IsOk, finishing,
  header_stage-IsOk, waiting,
}

-- A flow in order: where it goes on, it does so inside the message.
abbrev FlowOk : Msg → Flow → Type 0
FlowOk m (returned p out) = IsOk p
FlowOk m (going p offset) = IsOk p × (offset ≤ m.hdr.len)

after_chunk-FlowOk :
    (p : Parser) (m : Msg) (offset : ℕ)
    → p.state ≡ reading_chunks
    → HasBlock p
    → p.read_size ≤ p.hdr.total_size
    → p.curr_chunk_id ≤ p.hdr.total_chunks
    → p.hdr.total_chunks < 256
    → offset ≤ m.hdr.len
    → FlowOk m (after_chunk p offset)
after_chunk-FlowOk p m offset s b r c n h = elim (Bool-cases (p.read_size == p.hdr.total_size)) [
  | inl all ↦ elim (Bool-cases (p.curr_chunk_id == p.hdr.total_chunks)) [
    | inl last ↦ rw (all, last) (finishing refl (HasBlock-same refl refl b) (omega arith), h)
    | inr early ↦ rw (all, early) cleared-IsOk
  ]
  | inr more ↦ elim (Bool-cases (p.curr_chunk_id == p.hdr.total_chunks)) [
    | inl last ↦ rw (more, last) cleared-IsOk
    | inr early ↦ rw (more, early) (chunking s b (ground arith) (ground arith) n, h)
  ]
]

pub chunk_length_lem :
    (p : Parser) (m : Msg)
    → m.hdr.len ≤ 250
    → p.hdr.total_size ≤ 2048
    → id_offset p + 1 < m.hdr.len
    → p.read_size < p.hdr.total_size
    → (0 < chunk_length p m)
      × (chunk_length p m ≤ p.hdr.total_size - p.read_size)
      × (id_offset p + 1 + chunk_length p m ≤ m.hdr.len)
chunk_length_lem p m l t h r = ground arith

pub copy_run :
    (p : Parser) (m : Msg) (b : Block)
    → p.out_data ≡ some b
    → leb (id_offset p + 1 + chunk_length p m) max_payload_size ≡ true
    → leb (p.read_size + length (read m.payload (id_offset p + 1) (chunk_length p m))) b.size ≡ true
    → copy_chunk p m
      ≡ some (
          after_chunk
            (taken p (chunk_length p m) (
              some (record b {
                bytes =
                    copy b.bytes p.read_size (read m.payload (id_offset p + 1) (chunk_length p m));
              })))
            (u8 (id_offset p + 1 + chunk_length p m)))
copy_run p m b d h k = rw (h, d, k) refl

copy_chunk-FlowOk :
    (p : Parser) (m : Msg)
    → p.state ≡ reading_chunks
    → HasBlock p
    → p.read_size < p.hdr.total_size
    → p.curr_chunk_id < p.hdr.total_chunks
    → p.hdr.total_chunks < 256
    → m.hdr.len ≤ 250
    → id_offset p + 1 < m.hdr.len
    → (flow : Flow) × (copy_chunk p m ≡ some flow) × FlowOk m flow
copy_chunk-FlowOk p m s b r c n l h =
    let (pos, fit, inside) = chunk_length_lem p m l b.small h r in
    let k = length-read m.payload (id_offset p + 1) (chunk_length p m) in
    (
      _,
      copy_run p m b.block b.there (ground (arith, inside)) (ground (arith, k, b.sized, fit)),
      after_chunk-FlowOk (taken p (chunk_length p m) (some _)) m
          (u8 (id_offset p + 1 + chunk_length p m)) s
          (record { block = _; there = refl; sized = b.sized; small = b.small })
          (omega (arith, fit, b.small)) (omega arith) n (omega (arith, inside)),
    )

chunks_stage-FlowOk :
    (p : Parser) (m : Msg) (s : ParserState)
    → p.state ≡ s
    → IsOk p
    → m.hdr.len ≤ 250
    → (flow : Flow) × (chunks_stage p m 0 s ≡ some flow) × FlowOk m flow
chunks_stage-FlowOk p m reading_header e v l = (going p 0, refl, (v, omega arith))
chunks_stage-FlowOk p m reading_crc e v l = (going p 0, refl, (v, omega arith))
chunks_stage-FlowOk p m invalid e v l = (going p 0, refl, (v, omega arith))
chunks_stage-FlowOk p m reading_chunks e (waiting s c r) l = absurd cc
chunks_stage-FlowOk p m reading_chunks e (finishing s b r) l = absurd cc
chunks_stage-FlowOk p m reading_chunks e (chunking s b r c n) l =
    elim (Bool-cases (leb m.hdr.len (id_offset p + 1))) [
      | inl bad ↦ (returned cleared none, rw bad refl, cleared-IsOk)
      | inr long ↦ elim (Bool-cases (ltb p.hdr.total_size p.read_size)) [
        | inl bad ↦ (returned cleared none, rw (long, bad) refl, cleared-IsOk)
        | inr within ↦ elim (Bool-cases (m.payload (id_offset p) == p.curr_chunk_id)) [
          | inr bad ↦ (returned cleared none, rw (long, within, bad) refl, cleared-IsOk)
          | inl next ↦
              let (flow, run, f) = copy_chunk-FlowOk p m s b r c n l (ground arith) in
              (flow, rw (long, within, next) run, f)
        ]
      ]
    ]

run_crc-IsOk :
    (crc32 : ℕ → List ℕ → ℕ) (m : Msg) (flow : Flow)
    → FlowOk m flow
    → m.hdr.len ≤ 250
    → (p' : Parser) × (out : Option Multi) × (run_crc crc32 m flow ≡ some (p', out)) × IsOk p'
run_crc-IsOk crc32 m (returned p out) v l = (p, out, refl, v)
run_crc-IsOk crc32 m (going p offset) (v, h) l = crc_stage-IsOk crc32 p m offset p.state refl v l h

pub parse_run :
    (malloc : ℕ → Option (ℕ → ℕ)) (crc32 : ℕ → List ℕ → ℕ) (m : Msg) (p : Parser)
    (flow flow' : Flow)
    → header_stage malloc p m p.state ≡ flow
    → run_chunks m flow ≡ some flow'
    → parse_new_chunk malloc crc32 (some m) p ≡ run_crc crc32 m flow'
unfolding parse_new_chunk
parse_run malloc crc32 m p flow flow' a b =
    ap (λ f. run_chunks m f >>= λ g. run_crc crc32 m g) a ∙ ap (λ o. o >>= λ g. run_crc crc32 m g) b

-- On every message of bytes that fits its payload array, whatever it says, and whether `malloc` finds
-- memory or not, `parse_new_chunk` returns: no assertion fails, nothing is written outside the block
-- that it allocated or through the null pointer, and nothing is read behind the payload. The parser is
-- in order again; a cleared parser is in order.
pub parse_new_chunk-IsOk :
    (malloc : ℕ → Option (ℕ → ℕ)) (crc32 : ℕ → List ℕ → ℕ) (m : Msg) (p : Parser)
    → IsOk p
    → IsMsg m
    → (p' : Parser) × (out : Option Multi) × (parse_new_chunk malloc crc32 (some m) p
        ≡ some (p', out))
      × IsOk p'
parse_new_chunk-IsOk malloc crc32 m p v k = elim (header_stage-IsOk malloc p m p.state refl v k) [
  | inl bad ↦
      (cleared, none, parse_run malloc crc32 m p _ (returned cleared none) bad refl, cleared-IsOk)
  | inr (q, go, w, n) ↦
      let (flow, run, f) = chunks_stage-FlowOk q m q.state refl w k.short in
      let (p', out, done, ok) = run_crc-IsOk crc32 m flow f k.short in
      (p', out, parse_run malloc crc32 m p (going q 0) flow go run ∙ done, ok)
]
