-- ===== src/Events/Table.antt =====
-- The handlers that are subscribed to an event, as a list, and the arrays behind it.
use minimal_watch_firmware_e.Base.{
  ℕ, zero, suc, ◌+◌, ◌≤◌, ◌<◌, ◌≡◌, ◌∙◌, refl, ap, ap₂, ◌⊎◌, inl, inr, Bool, true, false, none,
  some, List, [], ◌∷◌, ◌++◌, arith, Bool-cases, ◌==◌, if◌then◌else◌, store, read, read_agree,
  read-add,
}
use minimal_watch_firmware_e.Events.{Subscription, Registry, max_event_subscribers, find, shift}

abbrev pub elem : ℕ → List ℕ → Bool
elem x [] = false
elem x (y ∷ ys) = if y == x then true else elem x ys

-- Without the first occurrence.
abbrev pub erase : ℕ → List ℕ → List ℕ
erase x [] = []
erase x (y ∷ ys) = if y == x then ys else y ∷ erase x ys

-- No number is there twice, and 0 is not there.
abbrev pub Proper : List ℕ → Type 0
Proper [] = Unit {0}
Proper (x ∷ xs) = (elem x xs ≡ false) × ((x == 0) ≡ false) × Proper xs

abbrev pub held : Subscription → List ℕ
held sub = read sub.handlers 0 sub.count

-- What is subscribed to an event.
abbrev pub subscribed : Registry → ℕ → List ℕ
subscribed r e = held (r.subscriptions e)

-- A table of subscriptions fits its arrays, with no handler twice and none null.
pub record IsValid (r : Registry) : Type 0 where
  pub fits : (e : ℕ) → (r.subscriptions e).count ≤ max_event_subscribers
  pub proper : (e : ℕ) → Proper (subscribed r e)

pub elem-append :
    (x : ℕ) (xs ys : List ℕ) → elem x (xs ++ ys) ≡ (if elem x xs then true else elem x ys)
elem-append x [] ys = refl
elem-append x (z ∷ xs) ys = elim (Bool-cases (z == x)) [
  | inl e ↦ rw e refl
  | inr e ↦ rw (e, elem-append x xs ys) refl
]

pub Proper-append :
    (xs : List ℕ) (x : ℕ)
    → Proper xs
    → elem x xs ≡ false
    → (x == 0) ≡ false
    → Proper (xs ++ (x ∷ []))
Proper-append [] x p a z = (refl, z, tt)
Proper-append (y ∷ ys) x (q, n, p) a z = elim (Bool-cases (y == x)) [
  | inl e ↦ absurd (ground arith)
  | inr e ↦
      let other : (x == y) ≡ false = ground arith in
      let a' : elem x ys ≡ false = rw e at a in
      (
        elem-append y ys (x ∷ [])
            ∙ ap₂ (λ b c. if b then true else if c then true else false) q other,
        n,
        Proper-append ys x p a' z,
      )
]

elem-erase : (x y : ℕ) (xs : List ℕ) → elem x xs ≡ false → elem x (erase y xs) ≡ false
elem-erase x y [] h = refl
elem-erase x y (z ∷ xs) h = elim (Bool-cases (z == x)) [
  | inl e ↦ absurd (ground arith)
  | inr e ↦
      let h' : elem x xs ≡ false = rw e at h in
      elim (Bool-cases (z == y)) [ inl f ↦ rw f h' | inr f ↦ rw (f, e) (elem-erase x y xs h') ]
]

pub Proper-erase : (x : ℕ) (xs : List ℕ) → Proper xs → Proper (erase x xs)
Proper-erase x [] p = tt
Proper-erase x (y ∷ ys) (q, n, p) = elim (Bool-cases (y == x)) [
  | inl e ↦ rw e p
  | inr e ↦ rw e (elem-erase y x ys q, n, Proper-erase x ys p)
]

-- What the search finds: nothing, or the first occurrence, which cuts the list in two.
pub record Found (m : ℕ → ℕ) (x i n b a : ℕ) : Type 0 where
  pub at : find m x i n ≡ some (i + b)
  pub split : n ≡ b + suc a
  pub member : elem x (read m i n) ≡ true
  pub erased : erase x (read m i n) ≡ read m i b ++ read m (i + b + 1) a

pub find_lem :
    (m : ℕ → ℕ) (x i n : ℕ)
    → ((find m x i n ≡ none) × (elem x (read m i n) ≡ false)) ⊎ ((b a : ℕ) × Found m x i n b a)
find_lem m x i zero = inl (refl, refl)
find_lem m x i (suc n) = elim (Bool-cases (m i == x)) [
  | inl e ↦ inr (
    0,
    n,
    record {
      at = rw e (ap some (omega arith));
      split = omega arith;
      member = rw e refl;
      erased = rw e (ap (λ k. read m k n) (omega arith));
    },
  )
  | inr e ↦ elim (find_lem m x (i + 1) n) [
    | inl (none_there, out) ↦ inl (rw e none_there, rw e out)
    | inr (b, a, f) ↦ inr (
      suc b,
      a,
      record {
        at = rw e (f.at ∙ ap some (omega arith));
        split = omega (arith, f.split);
        member = rw e f.member;
        erased =
            rw e (
              ap (λ l. m i ∷ l)
                (f.erased ∙ ap (λ k. read m (i + 1) b ++ read m k a) (omega arith)));
      },
    )
  ]
]

shift_before : (m : ℕ → ℕ) (j k n : ℕ) → k < j → shift m j n k ≡ m k
shift_before m j k zero h = refl
shift_before m j k (suc n) h =
    shift_before (store m j (m (j + 1))) (j + 1) k n (omega arith) ∙ ground arith

read-shift : (m : ℕ → ℕ) (j n : ℕ) → read (shift m j n) j n ≡ read m (j + 1) n
read-shift m j zero = refl
read-shift m j (suc n) =
    let m' = store m j (m (j + 1)) in
    ap₂ ◌∷◌ (shift_before m' (j + 1) j n (omega arith) ∙ ground arith)
      (read-shift m' (j + 1) n ∙ read_agree m' m (j + 1 + 1) n (λ k p q. ground arith))

-- Taking the handler at `b` out of `b + suc a`.
pub read-removed :
    (m : ℕ → ℕ) (b a : ℕ)
    → read (store (shift m b a) (b + a) 0) 0 (b + a) ≡ read m 0 b ++ read m (b + 1) a
read-removed m b a =
    read_agree (store (shift m b a) (b + a) 0) (shift m b a) 0 (b + a) (λ j p q. ground arith)
    ∙ read-add (shift m b a) 0 b a
    ∙ ap₂ ◌++◌ (read_agree (shift m b a) m 0 b (λ j p q. shift_before m b j a (omega arith)))
        (ap (λ k. read (shift m b a) k a) (omega arith) ∙ read-shift m b a)

-- Adding one behind `n`.
pub read-added : (m : ℕ → ℕ) (n x : ℕ) → read (store m n x) 0 (n + 1) ≡ read m 0 n ++ (x ∷ [])
read-added m n x =
    read-add (store m n x) 0 n 1
    ∙ ap₂ ◌++◌ (read_agree (store m n x) m 0 n (λ j p q. ground arith))
        (ap (λ v. v ∷ []) (ground arith))
