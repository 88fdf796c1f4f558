-- ===== src/Base/Moves.antt =====
-- `memmove` in an array, and a list without one of its elements.
use Prim.Native.Nat.{ℕ, zero, suc, ◌+◌, ◌-◌, ◌≤◌, ◌<◌}
use mathlib.Core.Path.{◌≡◌, refl, sym, ap, ap₂, ◌∙◌}
use mathlib.Core.Bool.{true, ◌&&◌}
use mathlib.Core.List.{List, [], ◌∷◌, ◌++◌}
use native.Mathlib.Omega.{arith}
use minimal_watch_firmware_e.Base.Tests.{ltb, leb, if◌then◌else◌}
use minimal_watch_firmware_e.Base.Lists.{length}
use minimal_watch_firmware_e.Base.Memory.{read, read_agree, read-add, length-read}

module _ {ℓ} {A : Type ℓ} where
  abbrev pub memmove : (ℕ → A) → ℕ → ℕ → ℕ → ℕ → A
  memmove m to from n j = if leb to j && ltb j (to + n) then m (from + (j - to)) else m j

  abbrev pub remove_at : ℕ → List A → List A
  remove_at i [] = []
  remove_at zero (x ∷ l) = l
  remove_at (suc i) (x ∷ l) = x ∷ remove_at i l

  pub remove_at_beyond : (i : ℕ) (l : List A) → length l ≤ i → remove_at i l ≡ l
  remove_at_beyond i [] h = refl
  remove_at_beyond zero (x ∷ l) h = absurd (omega arith)
  remove_at_beyond (suc i) (x ∷ l) h = ap (λ r. x ∷ r) (remove_at_beyond i l (omega arith))

  read_offset :
      (m k : ℕ → A) (i j n : ℕ)
      → ((d : ℕ) → d < n → m (i + d) ≡ k (j + d))
      → read m i n ≡ read k j n
  read_offset m k i j zero h = refl
  read_offset m k i j (suc n) h =
      ap₂ ◌∷◌ (ap m (omega arith) ∙ h 0 (omega arith) ∙ ap k (omega arith)) (
        read_offset m k (i + 1) (j + 1) n
          (λ d p. ap m (omega arith) ∙ h (suc d) (omega arith) ∙ ap k (omega arith)))

  pub read-memmove :
      (m : ℕ → A) (to from n : ℕ)
      → read (memmove m to from n) 0 (to + n) ≡ read m 0 to ++ read m from n
  read-memmove m to from n =
      read-add (memmove m to from n) 0 to n
      ∙ ap₂ ◌++◌ (read_agree (memmove m to from n) m 0 to (λ j p q. ground arith)) (
          ap (λ i. read (memmove m to from n) i n) (omega arith)
          ∙ read_offset (memmove m to from n) m to from n (λ d p. inside d p))
    where
      inside : (d : ℕ) → d < n → memmove m to from n (to + d) ≡ m (from + d)
      inside d p =
          let moved : (leb to (to + d) && ltb (to + d) (to + n)) ≡ true = ground arith in
          rw moved (ap m (omega arith))

  remove_at-length : (xs ys : List A) (y : A) → remove_at (length xs) (xs ++ (y ∷ ys)) ≡ xs ++ ys
  remove_at-length [] ys y = refl
  remove_at-length (x ∷ xs) ys y = ap (λ l. x ∷ l) (remove_at-length xs ys y)

  -- Moving up what is behind an element removes it.
  pub read-remove_at :
      (m : ℕ → A) (i n : ℕ)
      → i < n
      → read (memmove m i (i + 1) (n - 1 - i)) 0 (n - 1) ≡ remove_at i (read m 0 n)
  read-remove_at m i n h =
      let a = n - 1 - i in
      let parts : read m 0 n ≡ read m 0 i ++ (m i ∷ read m (i + 1) a) = split (omega arith) in
      ap (read (memmove m i (i + 1) a) 0) (omega arith)
      ∙ read-memmove m i (i + 1) a
      ∙ sym (remove_at-length (read m 0 i) (read m (i + 1) a) (m i))
      ∙ ap₂ remove_at (length-read m 0 i) (sym parts)
    where
      split :
          n ≡ i + suc (n - 1 - i) → read m 0 n ≡ read m 0 i ++ (m i ∷ read m (i + 1) (n - 1 - i))
      split count =
          ap (read m 0) count
          ∙ read-add m 0 i (suc (n - 1 - i))
          ∙ ap (λ j. read m 0 i ++ read m j (suc (n - 1 - i))) (omega arith)
