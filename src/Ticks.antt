-- ===== src/Ticks.antt =====
-- components/tick_manager/src/tick_manager.c: two periodic timers, and ticks that come with every n-th
-- tick of work.
--
-- The timers of ESP-IDF are the parameter `Timers`. What a callback publishes is the list of its
-- events, in order. A tick type is `none` where it is TICK_INVALID or above, and the time of the last
-- work tick where it is -1.
pub mod Counting
pub mod Tests
use minimal_watch_firmware_e.Base.{
  ℕ, zero, suc, ◌+◌, ◌*◌, Bool, true, false, Option, none, some, List, [], ◌∷◌, ◌++◌, leb, ltb, u32,
  if◌then◌else◌,
}

-- `tick_type_t`
pub data TickType : Type 0 where
  watchface work : TickType

-- The events that are published here.
pub data TickEvent : Type 0 where
  watchface_update work_tick sensor_tick : TickEvent

-- `esp_timer_create`, which may find no memory, `esp_timer_start_periodic`, `esp_timer_stop` and
-- `esp_timer_restart_at`, which says whether it succeeded; times are in microseconds.
pub record Timers : Type 1 where
  pub Timer : Type 0
  pub create : TickType → Option Timer
  pub start_periodic : (period : ℕ) → Timer → Timer
  pub stop : Timer → Timer
  pub restart_at : (period first : ℕ) → Timer → Bool × Timer

-- `dependent_tick_registry_t`
pub record Dependent : Type 0 where
  pub interval_work_ticks : ℕ
  pub event_mapping : TickEvent

-- `tick_intervals_ms`
abbrev pub tick_intervals_ms : TickType → ℕ
tick_intervals_ms watchface = 30
tick_intervals_ms work = 1025

-- `dep_tick_registry`
abbrev pub dep_tick_registry : List Dependent
dep_tick_registry = record { interval_work_ticks = 60; event_mapping = sensor_tick } ∷ []

-- `tick_timers`, `dep_ticks_counter` and `last_work_tick_us`
pub record Ticks (api : Timers) : Type 0 where
  pub tick_timers : TickType → Option api.Timer
  pub dep_ticks_counter : List ℕ
  pub last_work_tick_us : Option ℕ

abbrev pub on_timer : {A : Type 0} → (A → A) → Option A → Option A
on_timer f none = none
on_timer f (some t) = some (f t)

-- The loop of `tick_event_cb` over the registry and its counters: the counters, and what is published.
unfoldable pub count_dependents : List Dependent → List ℕ → List ℕ × List TickEvent
count_dependents [] cs = (cs, [])
count_dependents (d ∷ ds) [] = ([], [])
count_dependents (d ∷ ds) (c ∷ cs) =
    let counted : ℕ = u32 (c + 1) in
    let (rest, events) = count_dependents ds cs in
    if leb d.interval_work_ticks counted
    then (0 ∷ rest, d.event_mapping ∷ events)
    else (counted ∷ rest, events)

module _ (api : Timers) where
  -- A timer of the array is replaced.
  abbrev pub set_timer :
      TickType → Option api.Timer → (TickType → Option api.Timer) → TickType → Option api.Timer
  set_timer watchface t timers watchface = t
  set_timer watchface t timers work = timers work
  set_timer work t timers watchface = timers watchface
  set_timer work t timers work = t

  -- `tick_event_cb` at a time
  unfoldable pub tick_event_cb : ℕ → TickType → Ticks api → Ticks api × List TickEvent
  tick_event_cb now watchface s = (s, watchface_update ∷ [])
  tick_event_cb now work s =
      let (counters, events) = count_dependents dep_tick_registry s.dep_ticks_counter in
      (record s { dep_ticks_counter = counters; last_work_tick_us = some now }, work_tick ∷ events)

  -- `tick_manager_init`; a timer that could not be made stays NULL.
  unfoldable pub init : Ticks api
  init = record { tick_timers = api.create; dep_ticks_counter = 0 ∷ []; last_work_tick_us = none }

  -- `tick_manager_deinit`: the timers are stopped and deleted.
  unfoldable pub deinit : Ticks api → Ticks api
  deinit s = record s { tick_timers = λ t. none }

  -- `tick_manager_shift_work_tick`
  unfoldable pub shift_work_tick : ℕ → Ticks api → Bool × Ticks api
  shift_work_tick delta_us s = elim (s.tick_timers work) [
    | none ↦ (false, s)
    | some t ↦ elim s.last_work_tick_us [
      | none ↦ (false, s)
      | some last ↦
          let period : ℕ = tick_intervals_ms work * 1000 in
          let (ok, t') = api.restart_at period (last + period + delta_us) t in
          (ok, record s { tick_timers = set_timer work (some t') s.tick_timers })
    ]
  ]

  -- `tick_manager_generate_tick`
  unfoldable pub generate_tick : Option TickType → Ticks api → Ticks api
  generate_tick none s = s
  generate_tick (some type) s = record s {
    tick_timers =
        set_timer type
          (on_timer (api.start_periodic (tick_intervals_ms type * 1000)) (s.tick_timers type))
          s.tick_timers;
  }

  abbrev pub forget_work : TickType → Option ℕ → Option ℕ
  forget_work watchface last = last
  forget_work work last = none

  -- `tick_manager_stop_tick`
  unfoldable pub stop_tick : Option TickType → Ticks api → Ticks api
  stop_tick none s = s
  stop_tick (some type) s = record s {
    tick_timers = set_timer type (on_timer api.stop (s.tick_timers type)) s.tick_timers;
    last_work_tick_us = forget_work type s.last_work_tick_us;
  }

-- `tick_manager_get_tick_interval_ms`
unfoldable pub get_tick_interval_ms : Option TickType → ℕ
get_tick_interval_ms none = 0
get_tick_interval_ms (some type) = tick_intervals_ms type
