-- ===== src/Runtime/Hooks.antt =====
-- The hooks of components/runtime_manager/src/runtime_manager.c against a list of at most four.
use minimal_watch_firmware_e.Base.{
  ℕ, zero, suc, ◌+◌, ◌-◌, ◌≡◌, refl, ap, ap₂, sym, ◌∙◌, ◌≤◌, ◌<◌, Bool, true, false, not, ◌&&◌,
  ◌||◌, ◌⊎◌, List, [], ◌∷◌, ◌++◌, arith, inl, inr, Bool-cases, if◌then◌else◌, leb, ◌==◌, length,
  read, read_agree, read-add, length-read, store, store_here, store_there,
}
use minimal_watch_firmware_e.Runtime.{max_curfew_hooks, Env, Runtime}
use minimal_watch_firmware_e.Runtime.Platform.{Os}
use minimal_watch_firmware_e.Runtime.Calls.{remove_loop, register_hook, unregister_hook}

unfoldable pub contains : ℕ → List ℕ → Bool
contains h [] = false
contains h (x ∷ l) = if x == h then true else contains h l

unfoldable pub remove_first : ℕ → List ℕ → List ℕ
remove_first h [] = []
remove_first h (x ∷ l) = if x == h then l else x ∷ remove_first h l

-- Once the hook was found, the rest of the loop moves each entry down by one.
abbrev Moved : (left i : ℕ) (f g : ℕ → ℕ) → Type 0
Moved left i f g =
    ((k : ℕ) → k < i → g k ≡ f k) × ((k : ℕ) → i ≤ k → suc k < i + left → g k ≡ f (suc k))

on_last : (i count : ℕ) → i + 1 ≡ count → (i == count - 1) ≡ true
on_last i count e = ground arith

before_last : (i left count : ℕ) → i + suc (suc left) ≡ count → (i == count - 1) ≡ false
before_last i left count e = ground arith

still_true : (b : Bool) → (if b then true else true) ≡ true
still_true true = refl
still_true false = refl

shifts :
    (left i count hook : ℕ) (f : ℕ → ℕ)
    → i + left ≡ count
    → ((remove_loop left i count hook f true).1 ≡ true)
      × Moved left i f (remove_loop left i count hook f true).0
unfolding remove_loop
shifts zero i count hook f e = (refl, ((λ k h. refl), (λ k a b. absurd (omega arith))))
shifts (suc zero) i count hook f e =
    simp (still_true (f i == hook), on_last i count e)
      (refl, ((λ k h. refl), (λ k a b. absurd (omega arith))))
shifts (suc (suc left)) i count hook f e =
    let f' = store f i (f (i + 1)) in
    let (t, (low, high)) = shifts (suc left) (i + 1) count hook f' (omega arith) in
    simp (still_true (f i == hook), before_last i left count e)
      (
        t,
        (
          (λ k h. low k (omega arith) ∙ store_there f i k (f (i + 1)) (omega arith)),
          (λ k a b. elim (Bool-cases (k == i)) [
            | inl at ↦ ground (arith, low k, store_here f i (f (i + 1)))
            | inr past ↦
                high k (ground arith) (omega arith)
                ∙ store_there f i (suc k) (f (i + 1)) (omega arith)
          ]),
        ),
      )

read_moved :
    (left i : ℕ) (f g : ℕ → ℕ)
    → ((k : ℕ) → i ≤ k → k < i + left → g k ≡ f (suc k))
    → read g i left ≡ read f (i + 1) left
read_moved zero i f g h = refl
read_moved (suc left) i f g h =
    ap₂ (λ (x : ℕ) (l : List ℕ). x ∷ l) (h i (omega arith) (omega arith) ∙ ap f (omega arith))
      (read_moved left (i + 1) f g (λ k a b. h k (omega arith) (omega arith)))

first_found :
    (left i count hook : ℕ) (f : ℕ → ℕ)
    → (f i == hook) ≡ true
    → remove_loop (suc left) i count hook f false ≡ remove_loop (suc left) i count hook f true
unfolding remove_loop
first_found left i count hook f e = simp e

abbrev less_one : ℕ → ℕ
less_one zero = 0
less_one (suc n) = n

passed_over :
    (left i count hook : ℕ) (f : ℕ → ℕ)
    → (f i == hook) ≡ false
    → remove_loop (suc left) i count hook f false ≡ remove_loop left (i + 1) count hook f false
unfolding remove_loop
passed_over left i count hook f e = simp e

prepend :
    (left i hook : ℕ) (f g : ℕ → ℕ) (l : List ℕ)
    → contains hook (read f (i + 1) left) ≡ true
    → g i ≡ f i
    → read g (i + 1) (less_one left) ≡ l
    → read g i left ≡ f i ∷ l
unfolding contains
prepend zero i hook f g l c h e = cc
prepend (suc left) i hook f g l c h e = ap₂ (λ (x : ℕ) (m : List ℕ). x ∷ m) h e

abbrev Removed : (left i hook : ℕ) (f : ℕ → ℕ) → (ℕ → ℕ) × Bool → Type 0
Removed left i hook f res =
    ((res ≡ (f, false)) × (contains hook (read f i left) ≡ false))
    ⊎ ((res.1 ≡ true)
        × (contains hook (read f i left) ≡ true)
        × ((k : ℕ) → k < i → res.0 k ≡ f k)
        × (read res.0 i (less_one left) ≡ remove_first hook (read f i left)))

remove_loop-Removed :
    (left i count hook : ℕ) (f : ℕ → ℕ)
    → i + left ≡ count
    → Removed left i hook f (remove_loop left i count hook f false)
unfolding contains remove_first
remove_loop-Removed zero i count hook f e = unfold remove_loop in inl (refl, refl)
remove_loop-Removed (suc left) i count hook f e = elim (Bool-cases (f i == hook)) [
  | inl here ↦
      let (t, (low, high)) = shifts (suc left) i count hook f e in
      let g = (remove_loop (suc left) i count hook f true).0 in
      let moved : read g i left ≡ read f (i + 1) left =
        read_moved left i f g (λ k a b. high k a (omega arith)) in
      rw (first_found left i count hook f here, here) (inr (t, refl, low, moved))
  | inr past ↦
      rw (passed_over left i count hook f past, past)
        (elim (remove_loop-Removed left (i + 1) count hook f (omega arith)) [
          | inl (same, c) ↦ inl (same, c)
          | inr (t, c, low, rest) ↦ inr (
            t,
            c,
            (λ k h. low k (omega arith)),
            prepend left i hook f (remove_loop left (i + 1) count hook f false).0 _ c
                (low i (omega arith)) rest,
          )
        ])
]

-- What the two calls promise of the list of hooks: at most four, each added at the end; the first of
-- those that are equal is removed. Without the lock nothing changes, and a registration is confirmed.
unfoldable pub spec_register : (accepting locked : Bool) → ℕ → List ℕ → Bool × List ℕ
spec_register accepting locked h l =
    if not accepting || h == 0
    then (false, l)
    else if locked
    then (if leb max_curfew_hooks (length l) then (false, l) else (true, l ++ h ∷ []))
    else (true, l)

unfoldable pub spec_unregister : (initialized locked : Bool) → ℕ → List ℕ → Bool × List ℕ
spec_unregister initialized locked h l =
    if not initialized || h == 0
    then (false, l)
    else if locked
    then (if contains h l then (true, remove_first h l) else (false, l))
    else (false, l)

added : (f : ℕ → ℕ) (n h : ℕ) → read (store f n h) 0 (n + 1) ≡ read f 0 n ++ h ∷ []
added f n h =
    read-add (store f n h) 0 n 1
    ∙ ap₂ (λ (l : List ℕ) (x : ℕ). l ++ x ∷ [])
        (read_agree (store f n h) f 0 n (λ k a b. store_there f n k h (omega arith)))
        (ap (store f n h) (omega arith) ∙ store_here f n h)

less : (n : ℕ) → less_one n ≡ n - 1
less zero = refl
less (suc n) = omega arith

module _ {os : Os} (r : Runtime os) where
  abbrev pub hooks_of : List ℕ
  hooks_of = read r.window_hooks 0 r.active_hook_count

module _ {os : Os} (e : Env) (h : ℕ) (r : Runtime os) where
  abbrev pub Registers : Bool × Runtime os → Bool × List ℕ → Type 0
  Registers (b, r') (a, l) = (b ≡ a) × (hooks_of r' ≡ l)

  register_refines :
      Registers
        (register_hook os e h r)
        (spec_register (r.initialized && not r.shutdown_initialized) e.locked h (hooks_of r))
  unfolding register_hook spec_register
  register_refines = ground (
    arith,
    length-read r.window_hooks 0 r.active_hook_count,
    added r.window_hooks r.active_hook_count h,
  )

  removed :
      Removed r.active_hook_count 0 h r.window_hooks
        (remove_loop r.active_hook_count 0 r.active_hook_count h r.window_hooks false)
  removed =
      remove_loop-Removed r.active_hook_count 0 r.active_hook_count h r.window_hooks (omega arith)

  unregister_refines :
      Registers (unregister_hook os e h r) (spec_unregister r.initialized e.locked h (hooks_of r))
  unfolding unregister_hook spec_unregister
  unregister_refines = elim removed [
    | inl (same, c) ↦ ground (arith)
    | inr (t, c, low, rest) ↦
        let g = (remove_loop r.active_hook_count 0 r.active_hook_count h r.window_hooks false).0 in
        let n : ℕ = r.active_hook_count - 1 in
        let kept : read (store g n 0) 0 n ≡ read g 0 n =
          read_agree (store g n 0) g 0 n (λ k a b. store_there g n k 0 (omega arith)) in
        let all = kept ∙ ap (read g 0) (sym (less r.active_hook_count)) ∙ rest in
        ground (arith, all, t, c)
  ]

  -- After `runtime_manager_register_hook` and after `runtime_manager_unregister_hook`, the answer and
  -- the list of hooks are those of `spec_register` and `spec_unregister`.
  pub hooks_refine :
      Registers
        (register_hook os e h r)
        (spec_register (r.initialized && not r.shutdown_initialized) e.locked h (hooks_of r))
      × Registers (unregister_hook os e h r) (spec_unregister r.initialized e.locked h (hooks_of r))
  hooks_refine = (register_refines, unregister_refines)
