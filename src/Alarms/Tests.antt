-- ===== src/Alarms/Tests.antt =====
-- Runs of alarm_manager.c on a table of two alarms.
use minimal_watch_firmware_e.Base.{
  ℕ, ◌≡◌, refl, true, false, none, some, List, [], ◌∷◌, arith, if◌then◌else◌, take, store,
}
use minimal_watch_firmware_e.Alarms.{init, Alarm, Table, Manager, Env, create, edit, fired}
use minimal_watch_firmware_e.Alarms.Lists.{insert, IsValid}
use minimal_watch_firmware_e.Alarms.Create.{Shows, accepts, create_refines}
use minimal_watch_firmware_e.Alarms.Edit.{edit_refines}
use minimal_watch_firmware_e.Alarms.Init.{init_refines}
use minimal_watch_firmware_e.Alarms.Timer.{timer_for, fired_refines}

abbrev alarm_at : ℕ → Alarm
alarm_at epoch = record { epoch = epoch; type = 1; sync_with_phone = false }

abbrev two_alarms : Table
two_alarms = record {
  n_alarms = 2;
  alarms = store (λ _. alarm_at 1000) 1 (alarm_at 2000);
  valid = 1;
}

abbrev manager : Manager
manager = record { table = some two_alarms; timer = true; running = none; mutex = true }

abbrev at_time : ℕ → Env
at_time now = record { now = now; locked = true; started = true }

abbrev both : List Alarm
both = alarm_at 1000 ∷ alarm_at 2000 ∷ []

two_alarms-IsValid : IsValid two_alarms
two_alarms-IsValid = record { fits = omega arith; rising = ((omega arith, tt), (tt, tt)) }

Shows-both : Shows manager both
Shows-both = record { table = two_alarms; there = refl; valid = two_alarms-IsValid; listed = refl }

create_refines_example :
    (s' : Manager) × (create (at_time 100) (some (alarm_at 1500)) manager
      ≡ some (accepts 100 (alarm_at 1500) both, s'))
    × Shows s'
        (if accepts 100 (alarm_at 1500) both then take 5 (insert (alarm_at 1500) both) else both)
create_refines_example =
    create_refines (at_time 100) manager (alarm_at 1500) both Shows-both refl (omega arith)
      (omega arith)

-- At time 996 the first alarm is due within five seconds, and the new one is too early.
edit_refines_example :
    (s' : Manager) × (edit
        (at_time 996)
        (at_time 996)
        (at_time 996)
        (at_time 996)
        (some 0)
        (alarm_at 999)
        manager
      ≡ some (false, s'))
    × Shows s' (alarm_at 2000 ∷ [])
edit_refines_example =
    edit_refines (at_time 996) (at_time 996) (at_time 996) (at_time 996) manager 0 both
      (alarm_at 1000) (alarm_at 999) Shows-both (refl, omega arith) (refl, omega arith)
      (refl, omega arith) (refl, omega arith) (omega arith) refl (omega arith) (omega arith)

fired_refines_example :
    (s' : Manager) × (fired (at_time 1000) manager ≡ (some (alarm_at 1000), s'))
    × Shows s' (alarm_at 2000 ∷ [])
    × (s'.running ≡ timer_for (at_time 1000) (alarm_at 2000 ∷ []))
fired_refines_example =
    fired_refines (at_time 1000) manager (alarm_at 1000) (alarm_at 2000 ∷ []) Shows-both refl refl
      refl

-- Two alarms that were stored in the wrong order.
abbrev unsorted : Table
unsorted = record { n_alarms = 2; alarms = store (λ _. alarm_at 2000) 1 (alarm_at 1000); valid = 1 }

init_refines_example :
    (s' : Manager) × (init (at_time 100) true true (some unsorted) manager ≡ some s')
    × Shows s' both
    × (s'.running ≡ timer_for (at_time 100) both)
init_refines_example = init_refines (at_time 100) unsorted manager (omega arith) (refl, (refl, tt))
