-- ===== src/Wakelock/Counting.antt =====
-- The counter counts, also over releases of nothing, as long as none of these is interrupted.
use minimal_watch_firmware_e.Base.{
  ℕ, zero, suc, ◌≡◌, ◌∙◌, refl, ap, Option, none, some, some_inj, List, [], ◌∷◌, arith, ltb, leb,
  ◌≤◌, ◌<◌, false, true, Bool, if◌then◌else◌,
}
use minimal_watch_firmware_e.Wakelock.{
  pos, int_max, acquire, release, Wakelocks, Access, acquires, releases, resets, run,
  is_wake_locked,
}

-- How many locks are held after some accesses, from `n` on. A release of nothing is its two accesses,
-- one behind the other, and leaves nothing held; there is no number where something comes between
-- them, or where more than INT_MAX locks would be held.
abbrev pub held_after : ℕ → List Access → Option ℕ
held_after n [] = some n
held_after n (acquires ∷ l) =
    let held = held_after (suc n) l in if leb int_max n then none else held
held_after (suc n) (releases ∷ l) = held_after n l
held_after zero (releases ∷ resets ∷ l) = held_after zero l
held_after zero (releases ∷ []) = none
held_after zero (releases ∷ acquires ∷ l) = none
held_after zero (releases ∷ releases ∷ l) = none
held_after n (resets ∷ l) = none

not_full :
    (b : Bool) (o : Option ℕ) (k : ℕ)
    → (if b then none else o) ≡ some k
    → (b ≡ false) × (o ≡ some k)
not_full true o k e = absurd cc
not_full false o k e = (refl, e)

holding : ℕ → Wakelocks
holding n = record { counter = pos n; resetting = 0 }

acquire_lem : (n : ℕ) → n < int_max → acquire (holding n) ≡ holding (suc n)
unfolding holding
acquire_lem n h = let fits : ltb int_max (suc n) ≡ false = ground arith in rw fits refl

release_lem : (n : ℕ) → suc n ≤ int_max → release (holding (suc n)) ≡ holding n
unfolding holding
release_lem n h = let fits : ltb int_max n ≡ false = ground arith in rw fits refl

-- From at most INT_MAX locks that are held, over any interleaving of acquires and releases in which
-- nothing comes between the two accesses of a release of nothing and no more than INT_MAX locks are
-- ever held: the counter is the number of locks that are held in the end, where a release of nothing
-- has left that number at 0; no thread is about to write 0; and `wakelock_manager_is_wake_locked`
-- tells whether the number is above 0.
pub run_counts :
    (l : List Access) (n k : ℕ)
    → n ≤ 2147483647
    → held_after n l ≡ some k
    → (w : Wakelocks) × (run l (record { counter = pos n; resetting = 0 }) ≡ some w)
      × (w ≡ record { counter = pos k; resetting = 0 })
      × (is_wake_locked w ≡ ltb 0 k)
unfolding run is_wake_locked holding
run_counts [] n k h e = (
  record { counter = pos n; resetting = 0 },
  refl,
  ap (λ (j : ℕ). record { counter = pos j; resetting = 0 }) (some_inj e),
  locked n ∙ ap (ltb 0) (some_inj e),
)
  where
    locked : (n : ℕ) → is_wake_locked (record { counter = pos n; resetting = 0 }) ≡ ltb 0 n
    locked zero = refl
    locked (suc n) = ground arith
run_counts (acquires ∷ l) n k h e =
    let (free, held) = not_full (leb int_max n) (held_after (suc n) l) k e in
    let (w, ran, same, locked) = run_counts l (suc n) k (ground arith) held in
    (w, ap (run l) (acquire_lem n (ground arith)) ∙ ran, same, locked)
run_counts (releases ∷ l) (suc n) k h e =
    let (w, ran, same, locked) = run_counts l n k (omega arith) e in
    (w, ap (run l) (release_lem n h) ∙ ran, same, locked)
run_counts (releases ∷ resets ∷ l) zero k h e = run_counts l zero k h e
run_counts (releases ∷ []) zero k h e = absurd cc
run_counts (releases ∷ acquires ∷ l) zero k h e = absurd cc
run_counts (releases ∷ releases ∷ l) zero k h e = absurd cc
run_counts (resets ∷ l) n k h e = absurd cc
