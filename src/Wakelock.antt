-- ===== src/Wakelock.antt =====
-- components/wakelock_manager/src/wakelock_manager.c: a count of the wake locks that are held.
--
-- A step is one atomic access to the counter, an `atomic_int` that wraps around; so a release that
-- finds nothing to release is two steps, and other threads may come between them.
pub mod Counting
mod Tests
use minimal_watch_firmware_e.Base.{
  ℕ, zero, suc, ◌+◌, Bool, true, false, not, Option, none, some, List, [], ◌∷◌, if◌then◌else◌,
  ◌>>=◌, ltb,
}

-- `pos n` is n, and `negsuc n` is -1 - n.
pub data ℤ : Type 0 where
  pos negsuc : ℕ → ℤ

abbrev pub increased : ℤ → ℤ
increased (pos n) = pos (suc n)
increased (negsuc zero) = pos 0
increased (negsuc (suc n)) = negsuc n

abbrev pub decreased : ℤ → ℤ
decreased (pos zero) = negsuc 0
decreased (pos (suc n)) = pos n
decreased (negsuc n) = negsuc (suc n)

-- INT_MAX
abbrev pub int_max : ℕ
int_max = 2147483647

-- A sum, at most one outside the bounds of an int, as `atomic_fetch_add` stores it.
abbrev pub as_int : ℤ → ℤ
as_int (pos n) = if ltb int_max n then negsuc int_max else pos n
as_int (negsuc n) = if ltb int_max n then pos int_max else negsuc n

abbrev pub positive : ℤ → Bool
positive (pos zero) = false
positive (pos (suc n)) = true
positive (negsuc n) = false

-- `wakelock_counter`, and how many threads have found nothing to release and are about to write 0.
pub record Wakelocks : Type 0 where
  pub counter : ℤ
  pub resetting : ℕ

pub data Access : Type 0 where
  acquires releases resets : Access

-- `wakelock_manager_acquire_wakelock`
abbrev pub acquire : Wakelocks → Wakelocks
acquire w = record w { counter = as_int (increased w.counter) }

-- The first access of `wakelock_manager_release_wakelock`.
abbrev pub release : Wakelocks → Wakelocks
release w =
    if positive w.counter
    then record w { counter = as_int (decreased w.counter) }
    else record { counter = as_int (decreased w.counter); resetting = suc w.resetting }

-- The second one, of a thread that found nothing to release.
abbrev pub finish_release : ℕ → Wakelocks → Option Wakelocks
finish_release zero w = none
finish_release (suc n) w = some (record { counter = pos 0; resetting = n })

-- One access after the other; `none` where no thread is there to make it.
unfoldable pub run : List Access → Wakelocks → Option Wakelocks
run [] w = some w
run (acquires ∷ l) w = run l (acquire w)
run (releases ∷ l) w = run l (release w)
run (resets ∷ l) w = do w' ← finish_release w.resetting w; run l w'

-- `wakelock_manager_is_wake_locked`
unfoldable pub is_wake_locked : Wakelocks → Bool
is_wake_locked w = positive w.counter

-- `wakelock_manager_init`
abbrev pub init : Wakelocks → Wakelocks
init w = record w { counter = pos 0 }

-- `wakelock_manager_deinit`, which fails an assertion while a lock is held.
unfoldable pub deinit : Wakelocks → Option Wakelocks
deinit w = if is_wake_locked w then none else some (record w { counter = pos 0 })
