-- ===== src/State/Tests.antt =====
-- The state manager at concrete states.
use minimal_watch_firmware_e.Base.{
  ℕ, zero, suc, ◌≡◌, refl, Bool, true, false, none, some, [], ◌∷◌, arith,
}
use minimal_watch_firmware_e.Alarms
use minimal_watch_firmware_e.Alarms.{Alarm, Env}
use minimal_watch_firmware_e.Alarms.Create.{Shows}
use minimal_watch_firmware_e.Common.{ReqType}
use minimal_watch_firmware_e.Events
use minimal_watch_firmware_e.Events.{Registry, cleared_subscription}
use minimal_watch_firmware_e.State.{
  State, no_weather, no_entry, no_alarms, Handlers, init, get_epoch_time, check_validity,
  subscribe_all,
}
use minimal_watch_firmware_e.State.Requests.{Apart, checks, checks-Apart}
use minimal_watch_firmware_e.State.Sync.{cold_boot}

-- The rest of the firmware takes the first of two requests and refuses the second.
abbrev answer : ReqType → ℕ → Bool × ℕ
answer q zero = (true, 1)
answer q (suc n) = (false, n)

-- An alarm at second 900, with a timer that does not run yet.
abbrev alarm : Alarm
alarm = record { epoch = 900; type = 0; sync_with_phone = false }

abbrev alarm_manager : Alarms.Manager
alarm_manager = record {
  table = some (record { n_alarms = 1; alarms = λ i. alarm; valid = 1 });
  timer = true;
  running = none;
  mutex = true;
}

-- The time is not known.
abbrev unsynced : State
unsynced = record {
  watch_state = record {
    time_state = record { last_sync_time = 0; valid = 0 };
    weather_state = no_weather;
    alarms = no_alarms;
    steps = 12;
  };
  state_registry = record { time = no_entry; weather = no_entry; alarms = no_entry };
  alarm_manager = alarm_manager;
}

abbrev env : Env
env = record { now = 800; locked = true; started = true }

abbrev handlers : Handlers
handlers = record { update_time = 11; update_weather = 12; update_steps = 13 }

abbrev registry : Registry
registry = record { subscriptions = λ _. cleared_subscription; initialized = true }

abbrev registry_after : Registry
registry_after =
    (Events.subscribe (Events.subscribe (Events.subscribe registry 9 11).1 10 12).1 13 13).1

-- Six calls, of which three ask.
three_ask :
    checks answer (100 ∷ 300 ∷ 400 ∷ 599 ∷ 600 ∷ 1000 ∷ []) unsynced 0 ≡ 300 ∷ 600 ∷ 1000 ∷ []
unfolding checks check_validity
three_ask = refl

checks-Apart_example : Apart 0 (checks answer (100 ∷ 300 ∷ 400 ∷ 599 ∷ 600 ∷ 1000 ∷ []) unsynced 0)
checks-Apart_example =
    checks-Apart answer (100 ∷ 300 ∷ 400 ∷ 599 ∷ 600 ∷ 1000 ∷ []) unsynced 0 0 (omega arith) (
      omega arith,
      omega arith,
      (
        omega arith,
        omega arith,
        (
          omega arith,
          omega arith,
          (omega arith, omega arith, (omega arith, omega arith, (omega arith, omega arith, tt))),
        ),
      ),
    )

subscribed : subscribe_all handlers registry ≡ some registry_after
unfolding Events.subscribe
subscribed = refl

cold_boot_example :
    (s : State) × (w : ℕ) × (init answer env true true handlers registry unsynced 0
      ≡ some (registry_after, s, w))
    × Shows s.alarm_manager []
    × (s.watch_state.steps ≡ 0)
    × (s.watch_state.weather_state ≡ no_weather)
    × (get_epoch_time 800 s.watch_state ≡ 0)
    × (s.state_registry.time.request_pending ≡ true)
cold_boot_example = cold_boot answer env handlers registry registry_after unsynced 0 refl subscribed
