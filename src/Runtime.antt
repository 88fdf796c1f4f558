-- ===== src/Runtime.antt =====
-- components/runtime_manager: windows of work between sleeps, the pool of workers that do the work,
-- and the watchdog that aborts them.
--
-- The queues of FreeRTOS and the timers of ESP-IDF are the parameter `Os`; `Os.Laws` says what the
-- code relies on. A handle is an option, `none` where it is NULL, and the pool's copies of the
-- handles of the two work queues are the manager's.
pub mod Platform
pub mod Workers
pub mod Window
pub mod Tasks
pub mod Calls
pub mod Init
pub mod Count
pub mod Drain
pub mod Valid
pub mod Sleep
pub mod Settle
pub mod Curfew
pub mod Keeps
pub mod Hooks
pub mod Schedule
pub mod Returns
pub mod Run
pub mod Start
pub mod Tests
use minimal_watch_firmware_e.Base.{ℕ, Bool, true, false, Option, ◌||◌}
use minimal_watch_firmware_e.Runtime.Platform.{Os}
use minimal_watch_firmware_e.Runtime.Workers.{Pool}

-- `runtime_state_t`
pub data RuntimeState : Type 0 where
  sleep background_active grace_period ui_active : RuntimeState

abbrev pub is_active_state : RuntimeState → Bool
is_active_state ui_active = true
is_active_state background_active = true
is_active_state sleep = false
is_active_state grace_period = false

abbrev pub same_state : RuntimeState → RuntimeState → Bool
same_state sleep sleep = true
same_state background_active background_active = true
same_state grace_period grace_period = true
same_state ui_active ui_active = true
same_state _ _ = false

-- The limits of private/runtime_consts.h, in milliseconds where they are times.
abbrev pub max_user_work : ℕ
max_user_work = 10

abbrev pub max_system_work : ℕ
max_system_work = 10

abbrev pub max_curfew_hooks : ℕ
max_curfew_hooks = 4

abbrev pub window_ui_max_ms : ℕ
window_ui_max_ms = 700

abbrev pub window_background_max_ms : ℕ
window_background_max_ms = 160

abbrev pub window_grace_period_ms : ℕ
window_grace_period_ms = 200

abbrev pub window_idle_debounce_interval_ms : ℕ
window_idle_debounce_interval_ms = 10

-- What a call gets from outside: the time in microseconds, whether the recursive mutex was had in
-- time, and for each worker whether a task could be created.
pub record Env : Type 0 where
  pub now : ℕ
  pub locked : Bool
  pub spawned : ℕ → Bool

-- The static variables of runtime_manager.c, with those of the pool. `shutdown_sem` is whether the
-- semaphore was given.
pub record Runtime (os : Os) : Type 0 where
  pub state : RuntimeState
  pub user_work : Option os.Queue
  pub system_work : Option os.Queue
  pub pending_user_work : Option os.Queue
  pub pending_system_work : Option os.Queue
  pub window_hooks : ℕ → ℕ
  pub active_hook_count : ℕ
  pub initialized : Bool
  pub window_start_time : ℕ
  pub grace_start_time : ℕ
  pub total_window_timer : Option os.Timer
  pub grace_period_timer : Option os.Timer
  pub curfew_settlement_timer : Option os.Timer
  pub work_state : RuntimeState
  pub shutdown_initialized : Bool
  pub shutdown_sem : Option Bool
  pub pool : Pool os
