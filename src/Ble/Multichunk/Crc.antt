-- ===== src/Ble/Multichunk/Crc.antt =====
-- The CRC at the end of a message in chunks: four bytes, the highest first.
use minimal_watch_firmware_e.Base.{
  ℕ, zero, suc, ◌+◌, ◌*◌, ◌≤◌, ◌<◌, ◌≡◌, ◌∙◌, refl, ap, ◌++◌, false, not, ◌&&◌, some, List, [], ◌∷◌,
  arith, ltb, ◌==◌, u16, u32, read, nth, tail, length, ◌-◌, ◌^◌,
}
use minimal_watch_firmware_e.Base.Bits.{bit_or-sum}
use Prim.Native.Nat.{bit_or}
use minimal_watch_firmware_e.Ble.Message.{Msg}
use minimal_watch_firmware_e.Ble.Multichunk.{Parser, cleared, crc_byte, crc_loop}
use minimal_watch_firmware_e.Ble.Multichunk.Stages.{crc_step}

abbrev pub crc_word : ℕ → ℕ → ℕ → ℕ → ℕ
crc_word c0 c1 c2 c3 = ((c0 * 256 + c1) * 256 + c2) * 256 + c3

abbrev crc_bytes : Parser → ℕ → ℕ → ℕ → ℕ → Parser
crc_bytes p c0 c1 c2 c3 = crc_byte (crc_byte (crc_byte (crc_byte p c0) c1) c2) c3

join :
    (c0 c1 c2 c3 : ℕ)
    → c0 < 256
    → c1 < 256
    → c2 < 256
    → c3 < 256
    → bit_or (bit_or (bit_or (bit_or 0 (c0 * 16777216)) (c1 * 65536)) (c2 * 256)) c3
      ≡ crc_word c0 c1 c2 c3
join c0 c1 c2 c3 h0 h1 h2 h3 =
    ap (λ a. bit_or (bit_or (bit_or a (c1 * 65536)) (c2 * 256)) c3)
      (bit_or-sum 32 0 0 (c0 * 16777216) (omega arith) (omega arith))
    ∙ ap (λ a. bit_or (bit_or a (c2 * 256)) c3)
        (bit_or-sum 24 c0 (0 + c0 * 16777216) (c1 * 65536) (omega arith) (omega arith))
    ∙ ap (λ a. bit_or a c3)
        (bit_or-sum 16 (c0 * 256 + c1) (0 + c0 * 16777216 + c1 * 65536) (c2 * 256) (omega arith)
          (omega arith))
    ∙ bit_or-sum 8 ((c0 * 256 + c1) * 256 + c2) (0 + c0 * 16777216 + c1 * 65536 + c2 * 256) c3
        (omega arith) (omega arith)
    ∙ omega arith

crc_bytes-word :
    (p : Parser) (c0 c1 c2 c3 : ℕ)
    → p.read_size ≡ 0
    → p.crc ≡ 0
    → c0 < 256
    → c1 < 256
    → c2 < 256
    → c3 < 256
    → (crc_bytes p c0 c1 c2 c3).crc ≡ crc_word c0 c1 c2 c3
crc_bytes-word p c0 c1 c2 c3 r z h0 h1 h2 h3 =
    let u0 : u32 (c0 * 16777216) ≡ c0 * 16777216 = omega arith in
    let u1 : u32 (c1 * 65536) ≡ c1 * 65536 = omega arith in
    let u2 : u32 (c2 * 256) ≡ c2 * 256 = omega arith in
    let u3 : u32 (c3 * 1) ≡ c3 = omega arith in
    rw (z, r, u0, u1, u2, u3) (join c0 c1 c2 c3 h0 h1 h2 h3)

-- A message without another byte ends the loop.
crc_stop :
    (fuel : ℕ) (p : Parser) (m : Msg) (offset : ℕ)
    → offset ≡ m.hdr.len
    → crc_loop (suc fuel) p m offset ≡ some (p, m.hdr.len)
unfolding crc_loop
crc_stop fuel p m offset r =
    let done : (not (p.read_size == 4) && ltb offset m.hdr.len) ≡ false = ground arith in
    rw done (ap (λ k. some (p, k)) r)

-- One round, at a byte that is known.
crc_at :
    (fuel : ℕ) (p : Parser) (m : Msg) (offset b : ℕ) {z : Parser × ℕ}
    → p.read_size < 4
    → offset < m.hdr.len
    → m.hdr.len ≤ 250
    → m.payload offset ≡ b
    → crc_loop fuel (crc_byte p b) m (offset + 1) ≡ some z
    → crc_loop (suc fuel) p m offset ≡ some z
crc_at fuel p m offset b r h l e run =
    crc_step fuel p m offset (ground arith) (ground arith) (omega arith)
      (ap (λ c. crc_loop fuel (crc_byte p c) m (offset + 1)) e ∙ run)

-- The CRC, and how many of its bytes are there, after some more bytes.
abbrev pub crc_of : (count crc : ℕ) → List ℕ → ℕ
crc_of i c [] = c
crc_of i c (x ∷ xs) = crc_of (u16 (i + 1)) (bit_or c (u32 (x * 2 ^ ((3 - i) * 8)))) xs

abbrev pub count_of : (count : ℕ) → List ℕ → ℕ
count_of i [] = i
count_of i (x ∷ xs) = count_of (u16 (i + 1)) xs

abbrev pub crc_fold : Parser → List ℕ → Parser
crc_fold p xs = record p { crc = crc_of p.read_size p.crc xs; read_size = count_of p.read_size xs }

pub count_of-length : (i : ℕ) (xs : List ℕ) → i + length xs ≤ 4 → count_of i xs ≡ i + length xs
count_of-length i [] h = omega arith
count_of-length i (x ∷ xs) h =
    let next : u16 (i + 1) ≡ i + 1 = omega arith in
    ap (λ j. count_of j xs) next ∙ count_of-length (i + 1) xs (omega arith) ∙ omega arith

pub crc_of-append :
    (xs : List ℕ) (i c : ℕ) (ys : List ℕ)
    → crc_of i c (xs ++ ys) ≡ crc_of (count_of i xs) (crc_of i c xs) ys
crc_of-append [] i c ys = refl
crc_of-append (x ∷ xs) i c ys = crc_of-append xs _ _ ys

pub crc_of-word :
    (c0 c1 c2 c3 : ℕ)
    → c0 < 256
    → c1 < 256
    → c2 < 256
    → c3 < 256
    → crc_of 0 0 (c0 ∷ c1 ∷ c2 ∷ c3 ∷ []) ≡ crc_word c0 c1 c2 c3
crc_of-word c0 c1 c2 c3 h0 h1 h2 h3 = crc_bytes-word cleared c0 c1 c2 c3 refl refl h0 h1 h2 h3

-- The bytes that end a message are all taken.
pub crc_loop-bytes :
    (xs : List ℕ) (fuel : ℕ) (p : Parser) (m : Msg) (offset : ℕ)
    → p.read_size + length xs ≤ 4
    → length xs < fuel
    → offset + length xs ≡ m.hdr.len
    → m.hdr.len ≤ 250
    → read m.payload offset (length xs) ≡ xs
    → crc_loop fuel p m offset ≡ some (crc_fold p xs, m.hdr.len)
crc_loop-bytes xs zero p m o r f h l e = absurd (omega arith)
crc_loop-bytes [] (suc n) p m o r f h l e = crc_stop n p m o (omega arith)
crc_loop-bytes (x ∷ xs) (suc n) p m o r f h l e =
    crc_at n p m o x (omega arith) (omega arith) l (ap (nth 0) e) (
      crc_loop-bytes xs n (crc_byte p x) m (o + 1) (omega arith) (omega arith) (omega arith) l
        (ap tail e))
