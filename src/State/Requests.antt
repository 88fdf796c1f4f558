-- ===== src/State/Requests.antt =====
-- How often `state_manager_check_validity` asks the phone for the time.
use mathlib.Core.Path.{subst}
use minimal_watch_firmware_e.Base.{
  ℕ, ◌+◌, ◌≤◌, ◌<◌, ◌≡◌, ◌↔◌, ◌⊎◌, Bool, true, List, [], ◌∷◌, arith, ℕ_discrete, Bool-cases, inl,
  inr, if◌then◌else◌,
}
use minimal_watch_firmware_e.Common.{ReqType, update_system_time}
use minimal_watch_firmware_e.State.{State, fire_time_sync, requested, check_validity}

-- Each time is no earlier than the one before and fits 32 bits.
abbrev pub Rising : ℕ → List ℕ → Type 0
Rising t [] = Unit {0}
Rising t (u ∷ us) = (t ≤ u) × (u < 4294967296) × Rising u us

-- Each time is at least five minutes behind the one before.
abbrev pub Apart : ℕ → List ℕ → Type 0
Apart t [] = Unit {0}
Apart t (u ∷ us) = (t + 300 ≤ u) × Apart u us

-- For times that fit 32 bits, with the last request and the last sync not in the future:
-- `state_manager_check_validity` asks for the time exactly if five minutes have passed since it was
-- asked for last, and the time is not valid or was synced more than an hour ago.
fire_time_sync_iff :
    (now : ℕ) (s : State)
    → s.state_registry.time.last_req_time ≤ now
    → s.watch_state.time_state.last_sync_time ≤ now
    → now < 4294967296
    → (fire_time_sync now s ≡ true) ↔ (
        (s.state_registry.time.last_req_time + 300 ≤ now)
        × ((s.watch_state.time_state.valid ≡ 0)
            ⊎ (s.watch_state.time_state.last_sync_time + 3600 < now)))
fire_time_sync_iff now s h k l = elim (ℕ_discrete s.watch_state.time_state.valid 0) [
  | yes bad ↦ (λ e. (ground (arith, e, bad), inl bad), λ r. ground (arith, bad, r.0))
  | no good ↦ (
    λ e. (ground (arith, e, good), inr (ground (arith, e, good))),
    λ r. elim r.1 [ inl bad ↦ absurd (good bad) | inr old ↦ ground (arith, good, r.0, old) ],
  )
]

module _ {ℓ} {W : Type ℓ} (event_publish : ReqType → W → Bool × W) where
  -- Calls of `state_manager_check_validity` at some times: the times at which it asked.
  unfoldable pub checks : List ℕ → State → W → List ℕ
  checks [] s w = []
  checks (now ∷ times) s w =
      let (asked, s', w') = check_validity event_publish now s w in
      let rest = checks times s' w' in if asked then now ∷ rest else rest

  waited :
      (now : ℕ) (s : State)
      → s.state_registry.time.last_req_time ≤ now
      → now < 4294967296
      → fire_time_sync now s ≡ true
      → s.state_registry.time.last_req_time + 300 ≤ now
  waited now s h k e = ground (arith, e)

  -- Whatever `event_publish` answers, and whatever the state: over any calls at times that rise and fit
  -- 32 bits, the first not before the last request, `state_manager_check_validity` asks for the time
  -- five minutes after the last request at the earliest, and never twice within five minutes.
  pub checks-Apart :
      (times : List ℕ) (s : State) (w : W) (t : ℕ)
      → s.state_registry.time.last_req_time ≤ t
      → Rising t times
      → Apart s.state_registry.time.last_req_time (checks times s w)
  unfolding checks check_validity
  checks-Apart [] s w t h r = tt
  checks-Apart (now ∷ times) s w t h (l, k, r) = elim (Bool-cases (fire_time_sync now s)) [
    | inl fires ↦ rw fires (
      waited now s (omega arith) k fires,
      subst (λ t. Apart t (checks times (requested now s) (event_publish update_system_time w).1))
          (omega arith)
          (checks-Apart times (requested now s) (event_publish update_system_time w).1 now
            (omega arith) r),
    )
    | inr quiet ↦ rw quiet (checks-Apart times s w now (omega arith) r)
  ]
