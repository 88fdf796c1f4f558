-- ===== src/Steps/Counting.antt =====
-- No step is counted that was not seen, and none is counted before enough were seen.
use minimal_watch_firmware_e.Base.{
  ℕ, Bool, ◌+◌, ◌≤◌, ◌<◌, ◌≡◌, refl, ◌⊎◌, inl, inr, true, false, List, [], ◌∷◌, arith, Bool-cases,
  ltb, leb, ◌==◌, if◌then◌else◌, ==_iff, u16, u32,
}
use minimal_watch_firmware_e.Steps.{
  StepState, Limits, without_steps, pending_with, derive_accepted_steps,
}

-- Nothing is pending while walking, and less than the limit otherwise.
pub record IsOk (params : Limits) (s : StepState) : Type 0 where
  pub small : s.pending_steps ≤ 255
  pub walking : s.is_walking ≡ true → s.pending_steps ≡ 0
  pub waiting : s.is_walking ≡ false → s.pending_steps < params.min_steps

-- One window, from `s`: what is counted and pending afterwards was pending or seen, and a count that
-- is not 0 while not walking is at least the limit.
pub record Derived (params : Limits) (window_steps : ℕ) (s : StepState) (out : ℕ × StepState)
    : Type 0 where
  pub ok : IsOk params out.1
  pub bounded : out.0 + out.1.pending_steps ≤ s.pending_steps + window_steps
  pub earned : (s.is_walking ≡ true) ⊎ ((out.0 ≡ 0) ⊎ (params.min_steps ≤ out.0))

pending_with-le :
    (p n : ℕ) → p ≤ 255 → n ≤ 255 → (pending_with p n ≤ 255) × (pending_with p n ≤ p + n)
pending_with-le p n h k = ground arith

without_steps-Derived :
    (params : Limits) (n : ℕ) (s : StepState)
    → 0 < params.min_steps
    → IsOk params s
    → Derived params 0 s (0, without_steps params n s)
without_steps-Derived params n s h v =
    let counted =
      if ltb 65535 (u32 (s.samples_since_valid_step + n))
      then 65535
      else u16 (u32 (s.samples_since_valid_step + n)) in
    elim (Bool-cases (leb params.max_samples counted)) [
      | inl late ↦ rw late (record {
        ok = record { small = omega arith; walking = λ _. refl; waiting = λ _. h };
        bounded = omega arith;
        earned = inr (inl refl);
      })
      | inr early ↦ rw early (record {
        ok = record { small = v.small; walking = v.walking; waiting = v.waiting };
        bounded = omega arith;
        earned = inr (inl refl);
      })
    ]

-- From a state in order, with a limit above 0, a window of any number of samples and at most 255 steps
-- leaves a state in order. What is counted, with what is pending afterwards, is no more than what was
-- pending, with the window's steps; and while not walking either nothing is counted, or at least
-- `min_steps`.
pub derive-Derived :
    (params : Limits) (window_steps samples : ℕ) (s : StepState)
    → 0 < params.min_steps
    → window_steps ≤ 255
    → IsOk params s
    → Derived params window_steps s (derive_accepted_steps params window_steps samples s)
unfolding derive_accepted_steps
derive-Derived params w n s h k v = elim (Bool-cases (w == 0)) [
  | inl none_seen ↦
      let e : w ≡ 0 = (==_iff w 0).0 none_seen in rw e (without_steps-Derived params n s h v)
  | inr seen ↦ elim (Bool-cases s.is_walking) [
    | inl walks ↦
        rw (seen, walks)
          (record {
            ok = record { small = omega arith; walking = λ _. refl; waiting = λ x. absurd cc };
            bounded = omega arith;
            earned = inl refl;
          })
    | inr stands ↦
        let (top, sum) = pending_with-le s.pending_steps w v.small k in
        elim (Bool-cases (leb params.min_steps (pending_with s.pending_steps w))) [
          | inl enough ↦
              rw (seen, stands, enough)
                (record {
                  ok = record {
                    small = omega arith;
                    walking = λ _. refl;
                    waiting = λ x. absurd cc;
                  };
                  bounded = omega (arith, sum);
                  earned = inr (inr (ground arith));
                })
          | inr few ↦
              rw (seen, stands, few)
                (record {
                  ok = record {
                    small = top;
                    walking = λ x. absurd cc;
                    waiting = λ _. ground arith;
                  };
                  bounded = omega (arith, sum);
                  earned = inr (inl refl);
                })
        ]
  ]
]

-- Windows one after the other, each with its steps and its samples: how many steps are counted.
abbrev pub count_windows : Limits → List (ℕ × ℕ) → StepState → ℕ × StepState
count_windows params [] s = (0, s)
count_windows params ((seen, samples) ∷ ws) s =
    let (n, s') = derive_accepted_steps params seen samples s in
    let (total, last) = count_windows params ws s' in (n + total, last)

abbrev pub seen_in : List (ℕ × ℕ) → ℕ
seen_in [] = 0
seen_in ((seen, samples) ∷ ws) = seen + seen_in ws

abbrev pub AllBytes : List (ℕ × ℕ) → Type 0
AllBytes [] = Unit {0}
AllBytes ((seen, samples) ∷ ws) = (seen ≤ 255) × AllBytes ws

-- The steps of the first windows, up to one without steps, if the watch walks before them.
abbrev pub streak : (walks : Bool) → List (ℕ × ℕ) → ℕ
streak walks [] = 0
streak walks ((seen, samples) ∷ ws) =
    let rest = streak walks ws in if walks then (if seen == 0 then 0 else seen + rest) else 0

streak_counted :
    (params : Limits) (ws : List (ℕ × ℕ)) (walks : Bool) (pending since : ℕ)
    → streak walks ws
      ≤ (count_windows params ws (record {
        is_walking = walks;
        pending_steps = pending;
        samples_since_valid_step = since;
      })).0
unfolding derive_accepted_steps
streak_counted params [] walks pending since = omega arith
streak_counted params ((seen, samples) ∷ ws) false pending since = omega arith
streak_counted params ((seen, samples) ∷ ws) true pending since = elim (Bool-cases (seen == 0)) [
  | inl pause ↦ rw pause (omega arith)
  | inr goes ↦ rw goes (omega (arith, streak_counted params ws true 0 0))
]

-- From a state in order, with a limit above 0, over any sequence of windows of at most 255 steps each:
-- the steps that are counted, with those that are pending in the end, are no more than those that were
-- pending at first and those that were seen; the state is in order; and if the watch walks at first,
-- all steps of the windows up to the first without steps are counted.
pub count_windows_bounded :
    (params : Limits) (ws : List (ℕ × ℕ)) (s : StepState)
    → 0 < params.min_steps
    → AllBytes ws
    → IsOk params s
    → ((count_windows params ws s).0 + (count_windows params ws s).1.pending_steps
        ≤ s.pending_steps + seen_in ws)
      × IsOk params (count_windows params ws s).1
      × (streak s.is_walking ws ≤ (count_windows params ws s).0)
count_windows_bounded params [] s h k v = (omega arith, v, omega arith)
count_windows_bounded params ((seen, samples) ∷ ws) s h (b, k) v =
    let d = derive-Derived params seen samples s h b v in
    let (c, ok, _) =
      count_windows_bounded params ws (derive_accepted_steps params seen samples s).1 h k d.ok in
    (
      omega (arith, d.bounded, c),
      ok,
      streak_counted params ((seen, samples) ∷ ws) s.is_walking s.pending_steps
          s.samples_since_valid_step,
    )
