-- ===== src/Ring/Queue.antt =====
-- What a ring buffer promises: a list of at most `cap` elements, oldest first, that drops its
-- oldest or its newest element when it is full.
use minimal_watch_firmware_e.Base.{
  ℕ, Bool, true, false, Option, none, some, List, [], ◌∷◌, ◌++◌, ◌==◌, if◌then◌else◌, length, tail,
  length-append, length-map, map, ◌≤◌, ◌<◌, ◌≡◌, refl, arith, Bool-cases, inl, inr,
}
use minimal_watch_firmware_e.Ring.{Policy, drop_oldest, drop_newest}
use mathlib.Core.List.{map-append}

module _ {ℓ} {A : Type ℓ} where
  unfoldable pub push_oldest : ℕ → List A → A → List A
  push_oldest cap q x = (if length q == cap then tail q else q) ++ (x ∷ [])

  unfoldable pub push_newest : ℕ → List A → A → Bool × List A
  push_newest cap q x = if length q == cap then (false, q) else (true, q ++ (x ∷ []))

  -- Several pushes in order.
  unfoldable pub push_all : ℕ → List A → List A → List A
  push_all cap q [] = q
  push_all cap q (x ∷ xs) = push_all cap (push_oldest cap q x) xs

  unfoldable pub pop : List A → Bool × Option A × List A
  pop [] = (false, none, [])
  pop (x ∷ q) = (true, some x, q)

  abbrev pub push : ℕ → Policy → List A → A → Bool × List A
  push cap drop_oldest q x = (true, push_oldest cap q x)
  push cap drop_newest q x = push_newest cap q x

pub length-push_oldest {ℓ} :
    {A : Type ℓ} (cap : ℕ) (q : List A) (x : A)
    → 0 < cap
    → length q ≤ cap
    → length (push_oldest cap q x) ≤ cap
unfolding push_oldest
length-push_oldest cap [] x h k = ground arith
length-push_oldest cap (y ∷ q) x h k =
    ground (arith, length-append q (x ∷ []), length-append (y ∷ q) (x ∷ []))

pub push_all-append {ℓ} :
    {A : Type ℓ} (cap : ℕ) (q xs ys : List A)
    → push_all cap q (xs ++ ys) ≡ push_all cap (push_all cap q xs) ys
unfolding push_all
push_all-append cap q [] ys = refl
push_all-append cap q (x ∷ xs) ys = push_all-append cap (push_oldest cap q x) xs ys

tail-map {ℓ κ} :
    {A : Type ℓ} {B : Type κ} (f : A → B) (q : List A) → tail (map f q) ≡ map f (tail q)
tail-map f [] = refl
tail-map f (x ∷ q) = refl

pub map-push_oldest {ℓ κ} :
    {A : Type ℓ} {B : Type κ} (f : A → B) (cap : ℕ) (q : List A) (x : A)
    → map f (push_oldest cap q x) ≡ push_oldest cap (map f q) (f x)
unfolding push_oldest
map-push_oldest f cap q x = elim (Bool-cases (length q == cap)) [
  | inl e ↦ rw (length-map f q, e, map-append, tail-map f q)
  | inr e ↦ rw (length-map f q, e, map-append)
]

-- What a client does with a ring, and what it sees of each call.
pub data Op {ℓ} (A : Type ℓ) : Type ℓ where
  pushes : A → Op A
  pops : Op A
  clears : Op A

abbrev pub Reply {ℓ} : Type ℓ → Type ℓ
Reply A = Bool × Option A

module _ {ℓ} {A : Type ℓ} where
  unfoldable pub run : ℕ → Policy → List A → List (Op A) → List (Reply A) × List A
  run cap policy q [] = ([], q)
  run cap policy q (pushes x ∷ ops) =
      let (done, q') = push cap policy q x in
      let (replies, last) = run cap policy q' ops in ((done, none) ∷ replies, last)
  run cap policy q (pops ∷ ops) =
      let (done, out, q') = pop q in
      let (replies, last) = run cap policy q' ops in ((done, out) ∷ replies, last)
  run cap policy q (clears ∷ ops) =
      let (replies, last) = run cap policy [] ops in ((true, none) ∷ replies, last)
