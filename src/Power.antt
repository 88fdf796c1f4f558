-- ===== src/Power.antt =====
-- components/power_manager/src/power_manager.c: the states of the interface, and how the tick of work
-- is moved to where the Bluetooth stack wakes the watch.
--
-- What a function asks of other components is its list of effects, in order. Times are in
-- microseconds and are not negative. `none` is a failed assertion, or an abort.
pub mod States
pub mod Shift
mod Tests
use minimal_watch_firmware_e.Base.{
  ℕ, zero, suc, ◌+◌, ◌-◌, ◌*◌, ◌/◌, Bool, true, false, not, ◌&&◌, Option, none, some, List, [], ◌∷◌,
  ◌++◌, ltb, leb, ◌==◌, u8, u32, if◌then◌else◌,
}
use minimal_watch_firmware_e.Events
use minimal_watch_firmware_e.Events.{Registry}
use minimal_watch_firmware_e.Ticks.{
  TickType, work, Timers, Ticks, shift_work_tick, get_tick_interval_ms,
}

-- `power_state_t`
pub data PowerState : Type 0 where
  ui_active background sleep : PowerState

-- `power_cmd_t`
pub data PowerCmd : Type 0 where
  ui_sleep ui_wake shutdown : PowerCmd

-- The reasons of which the main task is notified.
pub data Reason : Type 0 where
  deep_sleep dfu : Reason

-- What is asked of the interface, the pins, the runtime manager, the queue of commands, the main task
-- and the lock against light sleep.
pub data Effect : Type 0 where
  sleeps_ui resumes_ui background_mode active_mode : Effect
  sets_active : Bool → Effect
  sends : PowerCmd → Effect
  notifies : Reason → Effect
  acquires_lock releases_lock : Effect

-- `phase_shift_calculator_t`
pub record PhaseShift : Type 0 where
  pub last_bt_wake_time : ℕ
  pub delta_mean : ℕ
  pub shift_sample : ℕ
  pub early_wakeup : Bool

-- `memset` of the calculator.
abbrev pub zeroed : PhaseShift
zeroed = record { last_bt_wake_time = 0; delta_mean = 0; shift_sample = 0; early_wakeup = false }

-- The counters of a work window, for the log.
pub record SleepLog : Type 0 where
  pub slept : ℕ
  pub last_sleep_exit_us : ℕ
  pub first_sleep_exit_us : ℕ
  pub first_sleep : Bool
  pub sleep_wakes : ℕ
  pub gpio_sleep_wakes : ℕ
  pub bt_sleep_wakes : ℕ
  pub unknown_sleep_wakes : ℕ
  pub last_wakeup_cause : ℕ
  pub requested_sleep_total : ℕ
  pub sleep_entries : ℕ

-- The static variables; of a handle it is kept whether it is not NULL.
pub record Power : Type 0 where
  pub log : SleepLog
  pub power_queue : Bool
  pub power_task : Bool
  pub main_task : Bool
  pub initialized : Bool
  pub state : PowerState
  pub hw_sleep_lock : Bool
  pub shift_calculator : PhaseShift

-- What woke the watch: whether a pin or Bluetooth did, and the causes as a number.
pub record Cause : Type 0 where
  pub gpio : Bool
  pub bt : Bool
  pub causes : ℕ

abbrev pub max_acceptable_delta_change_us : ℕ
max_acceptable_delta_change_us = 1000

abbrev pub min_shift_samples_for_shift : ℕ
min_shift_samples_for_shift = 5

abbrev pub work_tick_overlap_buffer : ℕ
work_tick_overlap_buffer = 2000

-- A round of `power_task_fn` with a command, by the state.
abbrev pub react : PowerCmd → PowerState → Power → Power × List Effect
react ui_sleep background p = (p, [])
react ui_sleep ui_active p =
    (record p { state = background }, sleeps_ui ∷ background_mode ∷ sets_active false ∷ [])
react ui_sleep sleep p =
    (record p { state = background }, sleeps_ui ∷ background_mode ∷ sets_active false ∷ [])
react ui_wake ui_active p = (p, [])
react ui_wake background p =
    (record p { state = ui_active }, active_mode ∷ sets_active true ∷ resumes_ui ∷ [])
react ui_wake sleep p =
    (record p { state = ui_active }, active_mode ∷ sets_active true ∷ resumes_ui ∷ [])
react shutdown sleep p = (p, [])
react shutdown ui_active p =
    (record p { state = sleep; power_queue = false; power_task = false }, [])
react shutdown background p =
    (record p { state = sleep; power_queue = false; power_task = false }, [])

unfoldable pub power_step : PowerCmd → Power → Power × List Effect
power_step c p = react c p.state p

-- `transition_to_ui_active`
abbrev pub transition_to_ui_active : Power → List Effect
transition_to_ui_active p = if p.power_queue then sends ui_wake ∷ [] else []

-- `ui_inactive_event_cb`, for its event, while there is a queue.
unfoldable pub ui_inactive_event_cb : Power → List Effect
ui_inactive_event_cb p = sends ui_sleep ∷ []

abbrev pub is_ui_active : PowerState → Bool
is_ui_active ui_active = true
is_ui_active background = false
is_ui_active sleep = false

-- `alarm_triggered_cb`
unfoldable pub alarm_triggered_cb : Power → List Effect
alarm_triggered_cb p = if is_ui_active p.state then [] else transition_to_ui_active p

-- `light_sleep_enter_cb`
unfoldable pub light_sleep_enter_cb : ℕ → Power → Power
light_sleep_enter_cb sleep_us p =
    let l = p.log in
    let l' : SleepLog = record l {
      requested_sleep_total = l.requested_sleep_total + sleep_us;
      sleep_entries = u32 (l.sleep_entries + 1);
    } in
    record p { log = l' }

-- The counters in `light_sleep_exit_cb`.
abbrev pub log_exit : (now sleep_us : ℕ) → SleepLog → SleepLog
log_exit now sleep_us l = record l {
  slept = l.slept + sleep_us;
  sleep_wakes = u8 (l.sleep_wakes + 1);
  last_sleep_exit_us = now;
  first_sleep_exit_us = if l.first_sleep then now else l.first_sleep_exit_us;
  first_sleep = false;
}

-- `light_sleep_exit_cb`
unfoldable pub light_sleep_exit_cb : (now sleep_us : ℕ) → Cause → Power → Power × List Effect
light_sleep_exit_cb now sleep_us c p =
    let l : SleepLog = log_exit now sleep_us p.log in
    if c.gpio
    then (
      record p { log = record l { gpio_sleep_wakes = u8 (l.gpio_sleep_wakes + 1) } },
      transition_to_ui_active p,
    )
    else if c.bt
    then (
      record p {
        log = record l { bt_sleep_wakes = u8 (l.bt_sleep_wakes + 1) };
        shift_calculator = record (p.shift_calculator) {
          early_wakeup = true;
          last_bt_wake_time = now;
        };
      },
      [],
    )
    else (
      record p {
        log = record l {
          unknown_sleep_wakes = u8 (l.unknown_sleep_wakes + 1);
          last_wakeup_cause = c.causes;
        };
      },
      [],
    )

-- What `print_debug_logs` leaves of the counters.
abbrev pub fresh_log : SleepLog → SleepLog
fresh_log l = record l {
  slept = 0;
  sleep_wakes = 0;
  gpio_sleep_wakes = 0;
  bt_sleep_wakes = 0;
  unknown_sleep_wakes = 0;
  requested_sleep_total = 0;
  sleep_entries = 0;
  first_sleep = true;
  last_wakeup_cause = 0;
}

-- The mean with one more sample.
abbrev pub sampled : ℕ → PhaseShift → PhaseShift
sampled delta_now c = record c {
  delta_mean = (c.delta_mean * c.shift_sample + delta_now) / (c.shift_sample + 1);
  shift_sample = u8 (c.shift_sample + 1);
}

module _ (api : Timers) where
  -- The end of `sync_bt_with_work_window`, once there are samples enough.
  unfoldable pub apply_shift : PhaseShift → Ticks api → PhaseShift × Ticks api
  apply_shift c ticks =
      let work_interval_us : ℕ = get_tick_interval_ms (some work) * 1000 in
      if leb work_interval_us (c.delta_mean + work_tick_overlap_buffer)
      then (zeroed, ticks)
      else (let shift : ℕ = work_interval_us - c.delta_mean - work_tick_overlap_buffer in
          if ltb work_interval_us shift
          then (zeroed, ticks)
          else (zeroed, (shift_work_tick api (u32 shift) ticks).1))

  -- `sync_bt_with_work_window`
  unfoldable pub sync_bt_with_work_window : ℕ → PhaseShift → Ticks api → PhaseShift × Ticks api
  sync_bt_with_work_window now c ticks =
      if leb c.last_bt_wake_time 0
      then (zeroed, ticks)
      else if ltb c.last_bt_wake_time now
      then (let delta_now : ℕ = now - c.last_bt_wake_time in
          if not (c.shift_sample == 0)
            && ltb (c.delta_mean + max_acceptable_delta_change_us) delta_now
          then (zeroed, ticks)
          else (let c' : PhaseShift = sampled delta_now c in
              if leb min_shift_samples_for_shift c'.shift_sample
              then apply_shift c' ticks
              else (c', ticks)))
      else (zeroed, ticks)

  -- What `sleep_debug_cb` does to the calculator.
  unfoldable pub calculate : ℕ → PhaseShift → Ticks api → PhaseShift × Ticks api
  calculate now c ticks =
      if c.early_wakeup
      then sync_bt_with_work_window now (record c { early_wakeup = false }) ticks
      else if ltb 0 c.shift_sample
      then (zeroed, ticks)
      else (c, ticks)

  -- `sleep_debug_cb` at a work tick
  unfoldable pub sleep_debug_cb : ℕ → Power → Ticks api → Power × Ticks api
  sleep_debug_cb now p ticks =
      let (c, ticks') = calculate now p.shift_calculator ticks in
      (record p { shift_calculator = c; log = fresh_log p.log }, ticks')

-- `power_manager_prevent_sleep` and `power_manager_allow_sleep`
unfoldable pub prevent_sleep : Power → Option (List Effect)
prevent_sleep p = if p.initialized && p.hw_sleep_lock then some (acquires_lock ∷ []) else none

unfoldable pub allow_sleep : Power → Option (List Effect)
allow_sleep p = if p.initialized && p.hw_sleep_lock then some (releases_lock ∷ []) else none

-- `no_motion_detected_handler`
unfoldable pub no_motion_detected_handler : Power → Power × List Effect
no_motion_detected_handler p =
    if p.main_task then (record p { main_task = false }, notifies deep_sleep ∷ []) else (p, [])

-- `dfu_update_start_handler`
unfoldable pub dfu_update_start_handler : Power → Option (Power × List Effect)
dfu_update_start_handler p =
    if p.main_task
    then elim (prevent_sleep p) [
      | none ↦ none
      | some held ↦ some (record p { main_task = false }, held ++ notifies dfu ∷ [])
    ]
    else some (p, [])

-- `power_manager_init` but for its subscriptions: whether the task's handle is not NULL, and whether
-- the queue, the task and the lock could be had.
unfoldable pub init : (task available : Bool) → Power → Option Power
init task available p =
    if p.initialized
    then some p
    else if available
    then (let l = p.log in
        let l' : SleepLog = record l { slept = 0 } in
        some (record p {
          log = l';
          power_queue = true;
          power_task = true;
          main_task = task;
          initialized = true;
          state = ui_active;
          hw_sleep_lock = true;
          shift_calculator = zeroed;
        }))
    else none

-- The loop of `power_manager_deinit`, which releases the lock as often as it is held, and once more.
abbrev pub release_all : (held : ℕ) → List Effect
release_all zero = releases_lock ∷ []
release_all (suc held) = releases_lock ∷ release_all held

-- The addresses of the handlers of events.
pub record Callbacks : Type 0 where
  pub ui_inactive_event_cb : ℕ
  pub sleep_debug_cb : ℕ
  pub alarm_triggered_cb : ℕ
  pub dfu_update_start_handler : ℕ

-- The calls of `event_subscribe`, for EVENT_UI_INACTIVE, EVENT_WORK_TICK, EVENT_ALARM_TRIGGERED and
-- EVENT_DFU_START; their answers are not looked at.
abbrev pub subscribe_callbacks : Callbacks → Registry → Registry
subscribe_callbacks h r =
    let r1 = (Events.subscribe r 0 h.ui_inactive_event_cb).1 in
    let r2 = (Events.subscribe r1 2 h.sleep_debug_cb).1 in
    let r3 = (Events.subscribe r2 7 h.alarm_triggered_cb).1 in
    (Events.subscribe r3 12 h.dfu_update_start_handler).1

-- `power_manager_init`
unfoldable pub manager_init :
    Callbacks → (task available : Bool) → Registry → Power → Option (Registry × Power)
manager_init h task available r p =
    if p.initialized
    then some (r, p)
    else elim (init task available p) [ none ↦ none | some p' ↦ some (subscribe_callbacks h r, p') ]

-- `power_manager_deinit` but for its subscriptions
unfoldable pub deinit : (held : ℕ) → Power → Power × List Effect
deinit held p = (
  record p { initialized = false; hw_sleep_lock = false; shift_calculator = zeroed },
  (if p.hw_sleep_lock then release_all held else []) ++ sends shutdown ∷ [],
)

abbrev pub unsubscribe_callbacks : Callbacks → Registry → Registry
unsubscribe_callbacks h r =
    let r1 = (Events.unsubscribe r 12 h.dfu_update_start_handler).1 in
    let r2 = (Events.unsubscribe r1 7 h.alarm_triggered_cb).1 in
    let r3 = (Events.unsubscribe r2 0 h.ui_inactive_event_cb).1 in
    (Events.unsubscribe r3 2 h.sleep_debug_cb).1

-- `power_manager_deinit`
unfoldable pub manager_deinit :
    Callbacks → (held : ℕ) → Registry → Power → Registry × Power × List Effect
manager_deinit h held r p = (unsubscribe_callbacks h r, (deinit held p).0, (deinit held p).1)
