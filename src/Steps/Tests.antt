-- ===== src/Steps/Tests.antt =====
-- Runs of the step counting at concrete windows.
use minimal_watch_firmware_e.Base.{◌+◌, ◌≤◌, ◌≡◌, refl, ℕ, List, true, false, [], ◌∷◌, arith}
use minimal_watch_firmware_e.Steps.{StepState, Limits, derive_accepted_steps}
use minimal_watch_firmware_e.Steps.Counting.{IsOk, count_windows, count_windows_bounded}

abbrev limits : Limits
limits = record { max_samples = 60; min_steps = 6 }

abbrev strolling : StepState
strolling = record { is_walking = true; pending_steps = 0; samples_since_valid_step = 0 }

abbrev standing : StepState
standing = record { is_walking = false; pending_steps = 4; samples_since_valid_step = 0 }

strolling-IsOk : IsOk limits strolling
strolling-IsOk = record { small = omega arith; walking = λ x. refl; waiting = λ x. absurd cc }

standing-IsOk : IsOk limits standing
standing-IsOk = record { small = omega arith; walking = λ x. absurd cc; waiting = λ _. omega arith }

-- Four pending steps and three new ones are enough, and are all counted.
starts_walking : (derive_accepted_steps limits 3 42 standing).0 ≡ 7
unfolding derive_accepted_steps
starts_walking = refl

abbrev windows : List (ℕ × ℕ)
windows = (3, 42) ∷ (2, 42) ∷ (0, 84) ∷ (2, 42) ∷ []

count_windows_bounded_example :
    ((count_windows limits windows strolling).0
        + (count_windows limits windows strolling).1.pending_steps
      ≤ 7)
    × IsOk limits (count_windows limits windows strolling).1
    × (5 ≤ (count_windows limits windows strolling).0)
count_windows_bounded_example =
    count_windows_bounded limits windows strolling (omega arith) (omega arith) strolling-IsOk
