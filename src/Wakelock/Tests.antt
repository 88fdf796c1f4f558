-- ===== src/Wakelock/Tests.antt =====
-- Runs of wakelock_manager.c.
use minimal_watch_firmware_e.Base.{arith, ◌≡◌, refl, some, [], ◌∷◌, ltb}
use minimal_watch_firmware_e.Wakelock.{
  pos, Wakelocks, acquires, releases, resets, run, is_wake_locked,
}
use minimal_watch_firmware_e.Wakelock.Counting.{run_counts}

-- A lock that is acquired between the two accesses of a release of nothing is forgotten.
forgotten :
    run (releases ∷ acquires ∷ resets ∷ []) (record { counter = pos 0; resetting = 0 })
    ≡ some (record { counter = pos 0; resetting = 0 })
unfolding run
forgotten = refl

run_counts_example :
    (w : Wakelocks) × (run
        (releases ∷ resets ∷ acquires ∷ acquires ∷ releases ∷ [])
        (record { counter = pos 0; resetting = 0 })
      ≡ some w)
    × (w ≡ record { counter = pos 1; resetting = 0 })
    × (is_wake_locked w ≡ ltb 0 1)
run_counts_example =
    run_counts (releases ∷ resets ∷ acquires ∷ acquires ∷ releases ∷ []) 0 1 (omega arith) refl
