-- ===== src/Power/Shift.antt =====
-- How far components/power_manager/src/power_manager.c moves the tick of work: after five work ticks in a
-- row, each some time after Bluetooth woke the watch.
use mathlib.Core.Path.{subst}
use minimal_watch_firmware_e.Base.{
  length, ℕ, zero, suc, ◌+◌, ◌-◌, ◌*◌, ◌/◌, ◌≡◌, refl, sym, ◌∙◌, ◌≤◌, ◌<◌, true, false, not, ◌&&◌,
  List, [], ◌∷◌, arith, ltb, leb, ◌==◌, u8, u32, if◌then◌else◌,
}
use minimal_watch_firmware_e.Ticks.{Timers, Ticks, shift_work_tick, get_tick_interval_ms}
use minimal_watch_firmware_e.Power.{
  PhaseShift, zeroed, sampled, apply_shift, sync_bt_with_work_window, calculate,
  min_shift_samples_for_shift,
}

-- The calculator once Bluetooth has woken the watch at a time, as `light_sleep_exit_cb` leaves it.
abbrev pub woken : ℕ → PhaseShift → PhaseShift
woken at c = record c { early_wakeup = true; last_bt_wake_time = at }

-- The mean of `n` samples, at least one, lies between two bounds.
abbrev pub MeanIn : (lo hi n mean : ℕ) → Type 0
MeanIn lo hi zero mean = Unit {0}
MeanIn lo hi (suc n) mean = (lo ≤ mean) × (mean ≤ hi)

-- The mean of at most five samples stays between what bounds them.
mean_bounds :
    (lo hi n mean d : ℕ)
    → n < 5
    → MeanIn lo hi n mean
    → lo ≤ d
    → d ≤ hi
    → (lo ≤ (mean * n + d) / (n + 1)) × ((mean * n + d) / (n + 1) ≤ hi)
mean_bounds lo hi zero mean d h m a b = omega arith
mean_bounds lo hi (suc zero) mean d h m a b = omega arith
mean_bounds lo hi (suc (suc zero)) mean d h m a b = omega arith
mean_bounds lo hi (suc (suc (suc zero))) mean d h m a b = omega arith
mean_bounds lo hi (suc (suc (suc (suc zero)))) mean d h m a b = omega arith
mean_bounds lo hi (suc (suc (suc (suc (suc n))))) mean d h m a b = absurd (omega arith)

-- The calculator after one more sample.
abbrev pub next_sample : (at now : ℕ) → PhaseShift → PhaseShift
next_sample at now c =
    let c' : PhaseShift = record c { early_wakeup = false; last_bt_wake_time = at } in
    sampled (now - at) c'

steady :
    (lo hi n mean d : ℕ)
    → hi ≤ lo + 1000
    → MeanIn lo hi n mean
    → d ≤ hi
    → (not (n == 0) && ltb (mean + 1000) d) ≡ false
steady lo hi zero mean d h m a = refl
steady lo hi (suc n) mean d h m a = ground arith

module _ (lo hi : ℕ) (lo_pos : 0 < lo) (narrow : hi ≤ lo + 1000) where
  module _ {api : Timers} (at now : ℕ) (c : PhaseShift) (ticks : Ticks api) (at_pos : 0 < at)
      (early : at + lo ≤ now) (late : now ≤ at + hi) (few : c.shift_sample < 5)
      (mean : MeanIn lo hi c.shift_sample c.delta_mean) where
    -- The tests up to the count of samples.
    is_sampled : calculate api now (woken at c) ticks ≡ (
        if leb min_shift_samples_for_shift (u8 (c.shift_sample + 1))
        then apply_shift api (next_sample at now c) ticks
        else (next_sample at now c, ticks))
    unfolding calculate sync_bt_with_work_window
    is_sampled =
        let some_time : leb at 0 ≡ false = ground arith in
        let later : ltb at now ≡ true = ground arith in
        let same = steady lo hi c.shift_sample c.delta_mean (now - at) narrow mean (omega arith) in
        simp (some_time, later, same)

    sample_mean :
        (lo ≤ (next_sample at now c).delta_mean) × ((next_sample at now c).delta_mean ≤ hi)
    sample_mean =
        mean_bounds lo hi c.shift_sample c.delta_mean (now - at) few mean (omega arith)
          (omega arith)

    -- One of the first four samples.
    early_sample :
        c.shift_sample < 4
        → (calculate api now (woken at c) ticks ≡ (next_sample at now c, ticks))
          × ((next_sample at now c).shift_sample ≡ c.shift_sample + 1)
    early_sample h =
        let not_yet : leb min_shift_samples_for_shift (u8 (c.shift_sample + 1)) ≡ false =
          ground arith in
        (is_sampled ∙ rw not_yet refl, omega arith)

    -- The fifth.
    fifth_sample :
        c.shift_sample ≡ 4
        → hi + 2000 < 1025000
        → (s : ℕ) × (1023000 - hi ≤ s)
          × (s ≤ 1023000 - lo)
          × (calculate api now (woken at c) ticks ≡ (zeroed, (shift_work_tick api s ticks).1))
    unfolding apply_shift get_tick_interval_ms
    fifth_sample h room =
        let enough : leb min_shift_samples_for_shift (u8 (c.shift_sample + 1)) ≡ true =
          ground arith in
        let m : ℕ = (next_sample at now c).delta_mean in
        let bounds = sample_mean in
        let s : ℕ = 1025000 - m - 2000 in
        let fits : leb 1025000 (m + 2000) ≡ false = ground arith in
        let small : ltb 1025000 s ≡ false = ground arith in
        let whole : u32 s ≡ s = omega arith in
        (s, omega arith, omega arith, is_sampled ∙ rw enough (simp (fits, small, whole)))

module _ (lo hi : ℕ) where
  -- A wake-up, the work tick that follows it between `lo` and `hi` later, and the ticks' state then.
  abbrev pub IsEarly : {api : Timers} → ℕ × ℕ × Ticks api → Type 0
  IsEarly (at, now, ticks) = (0 < at) × (at + lo ≤ now) × (now ≤ at + hi)

  abbrev pub AllEarly : {api : Timers} → List (ℕ × ℕ × Ticks api) → Type 0
  AllEarly [] = Unit {0}
  AllEarly (x ∷ l) = IsEarly x × AllEarly l

module _ {api : Timers} where
  -- What a wake-up and the tick after it make of the calculator and of the ticks.
  abbrev pub round : ℕ × ℕ × Ticks api → PhaseShift → PhaseShift × Ticks api
  round (at, now, ticks) c = calculate api now (woken at c) ticks

  -- Several of them, and that they leave the ticks alone.
  abbrev pub rounds : List (ℕ × ℕ × Ticks api) → PhaseShift → PhaseShift
  rounds [] c = c
  rounds (x ∷ l) c = rounds l (round x c).0

  abbrev pub Unshifted : List (ℕ × ℕ × Ticks api) → PhaseShift → Type 0
  Unshifted [] c = Unit {0}
  Unshifted (x ∷ l) c = ((round x c).1 ≡ x.2) × Unshifted l (round x c).0

  abbrev pub Shifts :
      (lo hi : ℕ) → List (ℕ × ℕ × Ticks api) → ℕ × ℕ × Ticks api → PhaseShift → Type 0
  Shifts lo hi l last c =
      Unshifted l c
      × ((s : ℕ) × (1023000 - hi ≤ s)
          × (s ≤ 1023000 - lo)
          × (round last (rounds l c) ≡ (zeroed, (shift_work_tick api s last.2).1)))

  -- The same, after the first of them.
  abbrev AfterFirst :
      (lo hi : ℕ)
      → List (ℕ × ℕ × Ticks api)
      → ℕ × ℕ × Ticks api
      → Ticks api
      → PhaseShift × Ticks api
      → Type 0
  AfterFirst lo hi l last ticks z =
      ((z.1 ≡ ticks) × Unshifted l z.0)
      × ((s : ℕ) × (1023000 - hi ≤ s)
          × (s ≤ 1023000 - lo)
          × (round last (rounds l z.0) ≡ (zeroed, (shift_work_tick api s last.2).1)))

  samples-Shifts :
      (lo hi : ℕ) (l : List (ℕ × ℕ × Ticks api)) (last : ℕ × ℕ × Ticks api) (c : PhaseShift)
      → 0 < lo
      → hi ≤ lo + 1000
      → hi + 2000 < 1025000
      → AllEarly lo hi l
      → IsEarly lo hi last
      → c.shift_sample + length l ≡ 4
      → MeanIn lo hi c.shift_sample c.delta_mean
      → Shifts lo hi l last c
  samples-Shifts lo hi [] (at, now, ticks) c p narrow room e (q, a, b) four m =
      (tt, fifth_sample lo hi p narrow at now c ticks q a b (omega arith) m (omega arith) room)
  samples-Shifts lo hi ((at, now, ticks) ∷ l) last c p narrow room ((q, a, b), e) f four m =
      let (first, more) =
        early_sample lo hi p narrow at now c ticks q a b (omega arith) m (omega arith) in
      let bounds = sample_mean lo hi p narrow at now c ticks q a b (omega arith) m in
      let counted : c.shift_sample + 1 ≡ suc c.shift_sample = omega arith in
      let (kept, shifted) =
        samples-Shifts lo hi l last (next_sample at now c) p narrow room e f (omega (arith, more)) (
          subst (λ (n : ℕ). MeanIn lo hi n (next_sample at now c).delta_mean) (sym (more ∙ counted))
            bounds) in
      subst (λ (z : PhaseShift × Ticks api). AfterFirst lo hi l last ticks z) (sym first)
        ((refl, kept), shifted)

  -- From a calculator with no sample, after five wake-ups by Bluetooth in a row, each at a time above 0
  -- and between `lo` and `hi` microseconds before the next work tick, with 0 < lo, hi at most
  -- lo + 1000 and hi + 2000 below 1025000, the tick's interval, and whatever the state of the ticks is
  -- each time: the first four leave the ticks alone, and the fifth clears the calculator and calls
  -- tick_manager_shift_work_tick with a shift from 1023000 - hi to 1023000 - lo.
  pub fifth_wake-Shifts :
      (lo hi : ℕ) (l : List (ℕ × ℕ × Ticks api)) (last : ℕ × ℕ × Ticks api) (c : PhaseShift)
      → 0 < lo
      → hi ≤ lo + 1000
      → hi + 2000 < 1025000
      → AllEarly lo hi l
      → IsEarly lo hi last
      → length l ≡ 4
      → c.shift_sample ≡ 0
      → Shifts lo hi l last c
  fifth_wake-Shifts lo hi l last c p narrow room e f four none_yet =
      samples-Shifts lo hi l last c p narrow room e f (omega arith)
        (subst (λ (n : ℕ). MeanIn lo hi n c.delta_mean) (sym none_yet) tt)
