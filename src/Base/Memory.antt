-- ===== src/Base/Memory.antt =====
-- C arrays as functions from the index: a write changes one cell, and `copy` is `memcpy`.
use Prim.Native.Nat.{ℕ, zero, suc, ◌+◌, ◌≤◌, ◌<◌}
use mathlib.Core.Path.{◌≡◌, refl, sym, ap, ap₂, ◌∙◌}
use mathlib.Core.Logic.{◌≢◌}
use mathlib.Core.List.{List, [], ◌∷◌, ◌++◌}
use native.Mathlib.Omega.{arith}
use minimal_watch_firmware_e.Base.Tests.{◌==◌, if◌then◌else◌}
use minimal_watch_firmware_e.Base.Lists.{length, length-append, take, drop, take_all, drop_all}

module _ {ℓ} {A : Type ℓ} where
  abbrev pub store : (ℕ → A) → ℕ → A → ℕ → A
  store m i v j = if j == i then v else m j

  pub store_here : (m : ℕ → A) (i : ℕ) (v : A) → store m i v i ≡ v
  store_here m i v = ground arith

  pub store_there : (m : ℕ → A) (i j : ℕ) (v : A) → j ≢ i → store m i v j ≡ m j
  store_there m i j v n = ground arith

  -- The `n` cells from `i` on.
  abbrev pub read : (ℕ → A) → ℕ → ℕ → List A
  read m i zero = []
  read m i (suc n) = m i ∷ read m (i + 1) n

  -- `memcpy(&m[i], xs, length xs)`
  abbrev pub copy : (ℕ → A) → ℕ → List A → ℕ → A
  copy m i [] = m
  copy m i (x ∷ xs) = copy (store m i x) (i + 1) xs

  pub length-read : (m : ℕ → A) (i n : ℕ) → length (read m i n) ≡ n
  length-read m i zero = refl
  length-read m i (suc n) = ap suc (length-read m (i + 1) n)

  -- A copy leaves the cells before it and those behind it alone.
  pub copy_before : (m : ℕ → A) (i j : ℕ) (xs : List A) → j < i → copy m i xs j ≡ m j
  copy_before m i j [] h = refl
  copy_before m i j (x ∷ xs) h = copy_before (store m i x) (i + 1) j xs (omega arith) ∙ ground arith

  pub copy_behind : (m : ℕ → A) (i j : ℕ) (xs : List A) → i + length xs ≤ j → copy m i xs j ≡ m j
  copy_behind m i j [] h = refl
  copy_behind m i j (x ∷ xs) h = copy_behind (store m i x) (i + 1) j xs (omega arith) ∙ ground arith

  pub read_agree :
      (m k : ℕ → A) (i n : ℕ) → ((j : ℕ) → i ≤ j → j < i + n → m j ≡ k j) → read m i n ≡ read k i n
  read_agree m k i zero h = refl
  read_agree m k i (suc n) h =
      ap₂ ◌∷◌ (h i (omega arith) (omega arith))
        (read_agree m k (i + 1) n (λ j p q. h j (omega arith) (omega arith)))

  pub read-copy : (m : ℕ → A) (i : ℕ) (xs : List A) → read (copy m i xs) i (length xs) ≡ xs
  read-copy m i [] = refl
  read-copy m i (x ∷ xs) =
      ap₂ ◌∷◌ (copy_before (store m i x) (i + 1) i xs (omega arith) ∙ ground arith)
        (read-copy (store m i x) (i + 1) xs)

  pub read-add : (m : ℕ → A) (i a b : ℕ) → read m i (a + b) ≡ read m i a ++ read m (i + a) b
  read-add m i zero b = ap₂ (read m) (omega arith) (omega arith)
  read-add m i (suc a) b =
      step (a + b) (omega arith)
      ∙ ap (λ r. m i ∷ r)
          (read-add m (i + 1) a b ∙ ap (λ k. read m (i + 1) a ++ read m k b) (omega arith))
    where
      step : (n : ℕ) → suc a + b ≡ suc n → read m i (suc a + b) ≡ m i ∷ read m (i + 1) n
      step n e = ap (read m i) e

  -- Extending what is already in place from `0` on.
  pub read-copy_extend :
      (m : ℕ → A) (i : ℕ) (xs : List A) → read (copy m i xs) 0 (i + length xs) ≡ read m 0 i ++ xs
  read-copy_extend m i xs =
      read-add (copy m i xs) 0 i (length xs)
      ∙ ap₂ ◌++◌ (read_agree (copy m i xs) m 0 i (λ j p q. copy_before m i j xs (omega arith)))
          (ap (λ k. read (copy m i xs) k (length xs)) (omega arith) ∙ read-copy m i xs)

  -- Equal lists, cut at equal lengths.
  append_cut :
      (xs xs' ys ys' : List A)
      → length xs ≡ length xs'
      → xs ++ ys ≡ xs' ++ ys'
      → (xs ≡ xs') × (ys ≡ ys')
  append_cut xs xs' ys ys' n e = (
    sym (take_all xs ys) ∙ ap₂ take n e ∙ take_all xs' ys',
    sym (drop_all xs ys) ∙ ap₂ drop n e ∙ drop_all xs' ys',
  )

  pub read_split :
      (m : ℕ → A) (i n : ℕ) (xs ys : List A)
      → read m i n ≡ xs ++ ys
      → (read m i (length xs) ≡ xs)
        × (read m (i + length xs) (length ys) ≡ ys)
        × (n ≡ length xs + length ys)
  read_split m i n xs ys e =
      let total : n ≡ length xs + length ys =
        sym (length-read m i n) ∙ ap length e ∙ length-append xs ys in
      let (a, b) =
        append_cut (read m i (length xs)) xs (read m (i + length xs) (length ys)) ys
          (length-read m i (length xs))
          (sym (read-add m i (length xs) (length ys)) ∙ ap (read m i) (sym total) ∙ e) in
      (a, b, total)
