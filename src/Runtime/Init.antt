-- ===== src/Runtime/Init.antt =====
-- components/runtime_manager: how it starts and how it is shut down.
use minimal_watch_firmware_e.Base.{
  ℕ, zero, suc, ◌+◌, ◌/◌, Bool, true, false, Option, none, some, List, [], ◌∷◌, ◌++◌, map,
  if◌then◌else◌, ◌>>=◌,
}
use minimal_watch_firmware_e.Wakelock.{pos}
use minimal_watch_firmware_e.Runtime.{
  sleep, ui_active, max_user_work, max_system_work, Env, Runtime,
}
use minimal_watch_firmware_e.Runtime.Platform.{
  Os, WorkType, system, user, init_timer, safe_timer_cleanup,
}
use minimal_watch_firmware_e.Runtime.Workers.{
  Worker, Pool, user_allocation, system_allocation, spawned_task, suspend_all,
}
use minimal_watch_firmware_e.Runtime.Window.{set_runtime_state}
use minimal_watch_firmware_e.Events
use minimal_watch_firmware_e.Events.{Registry}

-- EVENT_WORK_TICK
abbrev pub work_tick_event : ℕ
work_tick_event = 2

module _ (os : Os) where
  abbrev pub new_worker : (created : Bool) → ℕ → WorkType → Worker os
  new_worker created id type = record {
    worker_id = id;
    working = false;
    type = type;
    task_handle = spawned_task created true;
    abort_flag = false;
    soft_close = none;
    hard_close = none;
  }

  -- A loop of `worker_pool_init`: `left` workers of a type, from number `idx` on.
  unfoldable pub new_workers : (ℕ → Bool) → WorkType → (left idx : ℕ) → List (Worker os)
  new_workers created type zero idx = []
  new_workers created type (suc left) idx =
      new_worker (created idx) idx type ∷ new_workers created type left (idx + 1)

  abbrev pub init_timers : Worker os → Worker os
  init_timers w = record w {
    soft_close = init_timer os w.soft_close;
    hard_close = init_timer os w.hard_close;
  }

  -- `watchdog_manager_init`: timers for the first `left` workers.
  unfoldable pub watchdog_init : ℕ → List (Worker os) → List (Worker os)
  watchdog_init zero ws = ws
  watchdog_init (suc left) [] = []
  watchdog_init (suc left) (w ∷ ws) = init_timers w ∷ watchdog_init left ws

  -- `worker_pool_init`
  unfoldable pub pool_init : Env → Pool os → Pool os
  pool_init e p = suspend_all os (record p {
    workers = watchdog_init user_allocation (
        new_workers e.spawned user user_allocation 0
        ++ new_workers e.spawned system system_allocation user_allocation);
    watched = true;
  })

  -- `worker_pool_deinit`, with `watchdog_manager_deinit`: no worker keeps a task or a timer.
  unfoldable pub pool_deinit : Pool os → Pool os
  pool_deinit p = record {
    workers =
        map
          (λ (w : Worker os). record w {
            worker_id = 0;
            working = false;
            type = system;
            task_handle = none;
            abort_flag = false;
            soft_close = none;
            hard_close = none;
          })
          p.workers;
    active_workers = pos 0;
    watched = false;
  }

  -- `runtime_manager_init` up to its subscription; `none` is an abort, where a queue could not be had.
  unfoldable pub init : Env → Runtime os → Option (Runtime os)
  init e r = if r.initialized then some r else (do
    u ← os.new_queue max_user_work
    s ← os.new_queue max_system_work
    pu ← os.new_queue (max_user_work / 2)
    ps ← os.new_queue (max_system_work / 2)
    some (record r {
      user_work = some u;
      system_work = some s;
      pending_user_work = some pu;
      pending_system_work = some ps;
      active_hook_count = 0;
      state = sleep;
      shutdown_initialized = false;
      window_start_time = 0;
      grace_start_time = 0;
      total_window_timer = init_timer os none;
      grace_period_timer = init_timer os none;
      curfew_settlement_timer = init_timer os none;
      initialized = true;
      work_state = ui_active;
      pool = pool_init e r.pool;
    }))

  -- `runtime_manager_init`: with the subscription of `start_work_cb`, which stands at an address, to
  -- EVENT_WORK_TICK. What `event_subscribe` answers is not looked at.
  unfoldable pub manager_init :
      (start_work_cb : ℕ) → Env → Registry → Runtime os → Option (Registry × Runtime os)
  manager_init start_work_cb e subscriptions r =
      if r.initialized then some (subscriptions, r) else (do
        r' ← init e r
        some ((Events.subscribe subscriptions work_tick_event start_work_cb).1, r'))

  -- `runtime_manager_deinit` up to its wait for the last window.
  unfoldable pub begin_deinit : Runtime os → Runtime os
  begin_deinit r = record r {
    shutdown_initialized = true;
    shutdown_sem = some false;
    active_hook_count = 0;
  }

  -- The rest of it, but for its subscription: `given` is whether the semaphore was taken within three seconds.
  unfoldable pub finish_deinit : (given : Bool) → Env → Runtime os → Option (Runtime os)
  finish_deinit given e r = do
    r' ← (if given then some r else set_runtime_state os e sleep r)
    some (record r' {
      shutdown_sem = none;
      pool = pool_deinit r'.pool;
      total_window_timer = safe_timer_cleanup os true r'.total_window_timer;
      grace_period_timer = safe_timer_cleanup os true r'.grace_period_timer;
      curfew_settlement_timer = safe_timer_cleanup os true r'.curfew_settlement_timer;
      user_work = none;
      system_work = none;
      pending_user_work = none;
      pending_system_work = none;
      initialized = false;
    })

  -- The whole rest, with the subscription.
  unfoldable pub manager_deinit :
      (start_work_cb : ℕ)
      → (given : Bool) → Env
      → Registry
      → Runtime os
      → Option (Registry × Runtime os)
  manager_deinit start_work_cb given e subscriptions r = do
    r' ← finish_deinit given e r
    some ((Events.unsubscribe subscriptions work_tick_event start_work_cb).1, r')
