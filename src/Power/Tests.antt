-- ===== src/Power/Tests.antt =====
-- components/power_manager/src/power_manager.c at concrete states.
use minimal_watch_firmware_e.Base.{ℕ, ◌≡◌, refl, arith, true, false, some, List, [], ◌∷◌}
use minimal_watch_firmware_e.Runtime.Tests.{cold}
use minimal_watch_firmware_e.Events
use minimal_watch_firmware_e.Events.{Registry, cleared_subscription}
use minimal_watch_firmware_e.Ticks.{Ticks}
use minimal_watch_firmware_e.Ticks.Tests.{simple_timers}
use minimal_watch_firmware_e.Power.{
  ui_active, PowerCmd, ui_sleep, ui_wake, acquires_lock, notifies, dfu, SleepLog, Power, zeroed,
  prevent_sleep, dfu_update_start_handler, Callbacks, subscribe_callbacks, unsubscribe_callbacks,
}
use minimal_watch_firmware_e.Power.States.{power_task_fn, leads_to, InStep, tell_all, task_follows}
use minimal_watch_firmware_e.Power.Shift.{fifth_wake-Shifts, Shifts}

abbrev no_log : SleepLog
no_log = record {
  slept = 0;
  last_sleep_exit_us = 0;
  first_sleep_exit_us = 0;
  first_sleep = true;
  sleep_wakes = 0;
  gpio_sleep_wakes = 0;
  bt_sleep_wakes = 0;
  unknown_sleep_wakes = 0;
  last_wakeup_cause = 0;
  requested_sleep_total = 0;
  sleep_entries = 0;
}

abbrev running : Power
running = record {
  log = no_log;
  power_queue = true;
  power_task = true;
  main_task = true;
  initialized = true;
  state = ui_active;
  hw_sleep_lock = true;
  shift_calculator = zeroed;
}

-- The interface goes to sleep, wakes, and goes to sleep again.
abbrev commands : List PowerCmd
commands = ui_sleep ∷ ui_wake ∷ ui_sleep ∷ ui_sleep ∷ []

update_starts :
    dfu_update_start_handler running
    ≡ some (record running { main_task = false }, acquires_lock ∷ notifies dfu ∷ [])
unfolding dfu_update_start_handler prevent_sleep
update_starts = refl

task_follows_example :
    ((power_task_fn commands running).0.state ≡ leads_to ui_active commands)
    × InStep
        (leads_to ui_active commands)
        (tell_all (power_task_fn commands running).1 cold).work_state
task_follows_example = task_follows commands running cold refl refl refl

abbrev ticks : Ticks simple_timers
ticks = record {
  tick_timers = λ t. some (1025000, 1025000);
  dep_ticks_counter = 0 ∷ [];
  last_work_tick_us = some 1000;
}

abbrev wakes : List (ℕ × ℕ × Ticks simple_timers)
wakes =
    (100, 600100, ticks)
    ∷ (1000100, 1600400, ticks)
    ∷ (2000100, 2600000, ticks)
    ∷ (3000100, 3600100, ticks)
    ∷ []

fifth_wake-Shifts_example : Shifts 599900 600300 wakes (4000100, 4600100, ticks) zeroed
fifth_wake-Shifts_example =
    fifth_wake-Shifts 599900 600300 wakes (4000100, 4600100, ticks) zeroed (omega arith)
      (omega arith) (omega arith) (omega arith) (omega arith) refl refl

abbrev callbacks : Callbacks
callbacks = record {
  ui_inactive_event_cb = 41;
  sleep_debug_cb = 42;
  alarm_triggered_cb = 43;
  dfu_update_start_handler = 44;
}

abbrev no_handlers : Registry
no_handlers = record { subscriptions = λ _. cleared_subscription; initialized = true }

-- The handlers of EVENT_ALARM_TRIGGERED after the start, and after the end.
alarm_handlers :
    (((subscribe_callbacks callbacks no_handlers).subscriptions 7).handlers 0 ≡ 43)
    × (((unsubscribe_callbacks callbacks (subscribe_callbacks callbacks no_handlers)).subscriptions
          7).count
        ≡ 0)
unfolding Events.subscribe Events.unsubscribe
alarm_handlers = (refl, refl)
