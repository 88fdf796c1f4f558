-- ===== src/Base/Bits.antt =====
-- The binary or of numbers that share no digit is their sum.
use Prim.Native.Nat.{
  ℕ, zero, suc, ◌+◌, ◌*◌, ◌/◌, ◌%◌, ◌≤◌, ◌<◌, max, bit_or, digits, bit_or-bitwise,
}
use mathlib.Core.Path.{◌≡◌, ◌∙◌}
use native.Mathlib.Omega.{arith}

abbrev pub pow2 : ℕ → ℕ
pow2 zero = 1
pow2 (suc k) = 2 * pow2 k

-- The digits of `a` below the `k`th are 0.
abbrev Clear : ℕ → ℕ → Type 0
Clear zero a = Unit {0}
Clear (suc k) a = (a % 2 ≡ 0) × Clear k (a / 2)

abbrev Below : ℕ → ℕ → Type 0
Below zero b = b ≡ 0
Below (suc k) b = Below k (b / 2)

Clear-pow2 : (k c a : ℕ) → a ≡ c * pow2 k → Clear k a
Clear-pow2 zero c a e = tt
Clear-pow2 (suc k) c a e = (omega (arith, e), Clear-pow2 k c (a / 2) (omega (arith, e)))

Below-pow2 : (k b : ℕ) → b < pow2 k → Below k b
Below-pow2 zero b h = omega arith
Below-pow2 (suc k) b h = Below-pow2 k (b / 2) (omega arith)

digits-sum :
    (fuel k a b : ℕ) → a ≤ fuel → Clear k a → Below k b → digits (λ d. d) max fuel a b ≡ a + b
digits-sum zero k zero b h c l = omega arith
digits-sum zero k (suc a) b h c l = absurd (omega arith)
digits-sum (suc fuel) k zero b h c l = omega arith
digits-sum (suc fuel) zero (suc a) b h c l =
    omega (arith, digits-sum fuel zero (suc a / 2) (b / 2) (omega arith) tt (omega arith))
digits-sum (suc fuel) (suc k) (suc a) b h (c, d) l =
    omega (arith, digits-sum fuel k (suc a / 2) (b / 2) (omega arith) d l)

pub bit_or-sum : (k c a b : ℕ) → a ≡ c * pow2 k → b < pow2 k → bit_or a b ≡ a + b
bit_or-sum k c a b e h =
    bit_or-bitwise a b ∙ digits-sum a k a b (omega arith) (Clear-pow2 k c a e) (Below-pow2 k b h)
