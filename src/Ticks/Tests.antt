-- ===== src/Ticks/Tests.antt =====
-- components/tick_manager/src/tick_manager.c at concrete timers.
use minimal_watch_firmware_e.Base.{
  ℕ, ◌+◌, ◌/◌, ◌%◌, ◌≡◌, refl, arith, true, false, none, some, [], ◌∷◌,
}
use minimal_watch_firmware_e.Ticks.{
  watchface, work, work_tick, sensor_tick, Timers, Ticks, init, tick_event_cb, count_dependents,
  shift_work_tick, stop_tick, get_tick_interval_ms,
}
use minimal_watch_firmware_e.Ticks.Counting.{
  is_sensor, is_work, how_many, work_ticks, work_ticks_lem,
}

-- A timer is the time of its next expiry and its period.
abbrev pub simple_timers : Timers
simple_timers = record {
  Timer = ℕ × ℕ;
  create = λ type. some (0, 0);
  start_periodic = λ period t. (period, period);
  stop = λ t. (0, 0);
  restart_at = λ period first t. (true, (first, period));
}

abbrev almost : Ticks simple_timers
almost = record {
  tick_timers = λ t. some (0, 1025000);
  dep_ticks_counter = 58 ∷ [];
  last_work_tick_us = none;
}

two_ticks : (work_ticks (1000 ∷ 1026000 ∷ []) almost).1 ≡ work_tick ∷ work_tick ∷ sensor_tick ∷ []
unfolding work_ticks tick_event_cb count_dependents
two_ticks = refl

-- A second after a tick the next one is moved by half a second.
shifted :
    (shift_work_tick simple_timers 500000 (work_ticks (2000000 ∷ []) almost).0).1.tick_timers work
    ≡ some (3525000, 1025000)
unfolding work_ticks tick_event_cb count_dependents shift_work_tick
shifted = refl

-- Before the first tick there is nothing to move.
not_shifted : (shift_work_tick simple_timers 500000 (init simple_timers)).0 ≡ false
unfolding init shift_work_tick
not_shifted = refl

stopped : (stop_tick simple_timers (some work) almost).tick_timers work ≡ some (0, 0)
unfolding stop_tick
stopped = refl

interval : get_tick_interval_ms (some watchface) ≡ 30
unfolding get_tick_interval_ms
interval = refl

work_ticks_lem_example :
    ((work_ticks (1000 ∷ 1026000 ∷ []) almost).0.dep_ticks_counter ≡ ((58 + 2) % 60) ∷ [])
    × (how_many is_sensor (work_ticks (1000 ∷ 1026000 ∷ []) almost).1 ≡ (58 + 2) / 60)
    × (how_many is_work (work_ticks (1000 ∷ 1026000 ∷ []) almost).1 ≡ 2)
work_ticks_lem_example = work_ticks_lem (1000 ∷ 1026000 ∷ []) 58 almost (omega arith) refl
