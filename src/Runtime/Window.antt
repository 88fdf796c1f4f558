-- ===== src/Runtime/Window.antt =====
-- components/runtime_manager/src/runtime_manager.c: how a window of work opens and ends.
--
-- `none` is a failed assertion, or a NULL handle given to a queue. A function that holds the lock
-- calls others with `held`, since the mutex is recursive.
use minimal_watch_firmware_e.Base.{
  ℕ, zero, suc, ◌+◌, ◌-◌, ◌*◌, Bool, true, not, ◌||◌, Option, none, some, List, [], ◌∷◌, ltb, ◌==◌,
  if◌then◌else◌, ◌>>=◌,
}
use mathlib.Core.Option
use minimal_watch_firmware_e.Wakelock.{positive}
use minimal_watch_firmware_e.Runtime.{
  RuntimeState, sleep, background_active, grace_period, ui_active, is_active_state, same_state,
  window_ui_max_ms, window_background_max_ms, window_grace_period_ms,
  window_idle_debounce_interval_ms, Env, Runtime,
}
use minimal_watch_firmware_e.Runtime.Platform.{Os, system, WorkItem, is_active, stop, start_once}
use minimal_watch_firmware_e.Runtime.Workers.{
  Pool, resume_all, suspend_all, force_all_mandatory_abort, force_all_cooperative_abort,
}

abbrev pub held : Env → Env
held e = record e { locked = true }

-- `RUNTIME_SYSTEM_PRIORITY`
abbrev pub system_priority : ℕ
system_priority = 3

-- `curfew_hook_adapter` stands at this address.
abbrev pub hook_adapter_address : ℕ
hook_adapter_address = 1

-- `curfew_hook_adapter` on its payload: the hook that it calls.
unfoldable pub curfew_hook_adapter : List ℕ → Option ℕ
curfew_hook_adapter [] = none
curfew_hook_adapter (hook ∷ l) = if hook == 0 then none else some hook

abbrev pub hook_item : ℕ → WorkItem
hook_item hook = record {
  handler = hook_adapter_address;
  type = system;
  arg_payload = hook ∷ [];
  priority = system_priority;
}

abbrev pub window_max_ms : RuntimeState → ℕ
window_max_ms ui_active = window_ui_max_ms
window_max_ms _ = window_background_max_ms

module _ (os : Os) where
  -- `WITH_RUNTIME_LOCK`: what it guards is left out when the mutex was not had in time.
  abbrev pub with_lock : Env → (Runtime os → Option (Runtime os)) → Runtime os → Option (Runtime os)
  with_lock e f r = if e.locked then f r else some r

  -- `worker_pool_has_work`
  unfoldable pub has_work : Runtime os → Option Bool
  has_work r = do
    u ← r.user_work
    s ← r.system_work
    some (positive r.pool.active_workers || (ltb 0 (os.waiting s) || ltb 0 (os.waiting u)))

  -- `is_system_completely_idle`
  abbrev pub is_system_completely_idle : Runtime os → Option Bool
  is_system_completely_idle r = do w ← has_work r; some (not w)

  -- The loop of `drain_pending_queue`; a work item that does not fit is skipped.
  unfoldable pub drain_loop : ℕ → os.Queue → os.Queue → Option (os.Queue × os.Queue)
  drain_loop zero src dest = none
  drain_loop (suc f) src dest = elim (os.receive src) [
    | none ↦ some (src, dest)
    | some (x, rest) ↦ drain_loop f rest (os.send x dest).1
  ]

  -- `drain_pending_queue`: what is left in the source, and the destination.
  unfoldable pub drain_pending_queue :
      RuntimeState → Option os.Queue → Option os.Queue → Option (Option os.Queue × Option os.Queue)
  drain_pending_queue state queue_src queue_dest = do
    src ← queue_src
    dest ← queue_dest
    (if same_state state grace_period
        then some (some src, some dest)
        else (do d ← drain_loop (os.waiting src + 1) src dest; some (some d.0, some d.1)))

  -- One of the two branches of `runtime_manager_evaluate_early_curfew`: a window, or a grace
  -- period, that began at `start` and lasts `limit_ms`.
  abbrev pub settle : Env → (start limit_ms : ℕ) → Runtime os → Runtime os
  settle e start limit_ms r =
      if is_active os r.curfew_settlement_timer
      then r
      else if ltb e.now (start + limit_ms * 1000)
      then (let remaining : ℕ = start + limit_ms * 1000 - e.now in
          let debounce : ℕ = window_idle_debounce_interval_ms * 1000 in
          record r {
            curfew_settlement_timer =
                start_once os e.now (if ltb remaining debounce then remaining else debounce)
                  r.curfew_settlement_timer;
          })
      else r

  abbrev pub settle_idle : Env → (start limit_ms : ℕ) → Runtime os → Option (Runtime os)
  settle_idle e start limit_ms r = do
    idle ← is_system_completely_idle r
    some (if idle then settle e start limit_ms r else r)

  -- `runtime_manager_evaluate_early_curfew`
  unfoldable pub evaluate_early_curfew : Env → Runtime os → Option (Runtime os)
  evaluate_early_curfew e = with_lock e (λ r.
      if is_active_state r.state
      then settle_idle e r.window_start_time (window_max_ms r.state) r
      else if same_state r.state grace_period
      then settle_idle e r.grace_start_time window_grace_period_ms r
      else some r)

  -- `runtime_manager_reset_settlement_timer`
  unfoldable pub reset_settlement_timer : Env → Runtime os → Option (Runtime os)
  reset_settlement_timer e =
      with_lock e
        (λ r. some (record r { curfew_settlement_timer = stop os r.curfew_settlement_timer }))

  -- The branch of `set_runtime_state` to a window, from sleep.
  unfoldable pub open_window : Env → RuntimeState → Runtime os → Option (Runtime os)
  open_window e target r =
      if e.now == 0
      then none
      else evaluate_early_curfew (held e) (record r {
        state = target;
        window_start_time = e.now;
        total_window_timer = start_once os e.now (window_max_ms target * 1000) r.total_window_timer;
        pool = resume_all os r.pool;
      })

  -- What `fall_asleep` leaves, given the two pairs of queues and the pool.
  abbrev pub asleep :
      Runtime os → (user system : Option os.Queue × Option os.Queue) → Pool os → Runtime os
  asleep r u s p = record r {
    state = sleep;
    total_window_timer = stop os r.total_window_timer;
    grace_period_timer = stop os r.grace_period_timer;
    curfew_settlement_timer = stop os r.curfew_settlement_timer;
    pending_user_work = u.0;
    user_work = u.1;
    pending_system_work = s.0;
    system_work = s.1;
    pool = suspend_all os p;
    shutdown_sem =
        if r.shutdown_initialized
        then Option.map (λ (given : Bool). true) r.shutdown_sem
        else r.shutdown_sem;
  }

  -- The branch of `set_runtime_state` to sleep.
  unfoldable pub fall_asleep : Env → Runtime os → Option (Runtime os)
  fall_asleep e r = do
    u ← drain_pending_queue sleep r.pending_user_work r.user_work
    s ← drain_pending_queue sleep r.pending_system_work r.system_work
    p ← force_all_mandatory_abort os e.spawned r.pool
    some (asleep r u s p)

  -- `set_runtime_state`
  unfoldable pub set_runtime_state : Env → RuntimeState → Runtime os → Option (Runtime os)
  set_runtime_state e target = with_lock e (λ r.
      if same_state r.state target
      then some r
      else if is_active_state target
      then (if same_state r.state sleep then open_window e target r else some r)
      else if same_state target sleep
      then fall_asleep e r
      else some r)

  -- The loop of `runtime_manager_begin_curfew_unsafe`, from hook `i` on; what does not fit is
  -- skipped.
  unfoldable pub queue_hooks : (left i : ℕ) → (ℕ → ℕ) → os.Queue → os.Queue
  queue_hooks zero i hooks q = q
  queue_hooks (suc left) i hooks q =
      queue_hooks left (i + 1) hooks (os.send (hook_item (hooks i)) q).1

  abbrev pub enter_grace : Env → Runtime os → Option (Runtime os)
  enter_grace e r = do
    t ← r.grace_period_timer
    s ← r.system_work
    some (record r {
      state = grace_period;
      grace_period_timer = start_once os e.now (window_grace_period_ms * 1000) (some t);
      grace_start_time = e.now;
      system_work = some (queue_hooks r.active_hook_count 0 r.window_hooks s);
    })

  -- `runtime_manager_begin_curfew_unsafe`
  unfoldable pub begin_curfew_unsafe : Env → Runtime os → Option (Runtime os)
  begin_curfew_unsafe e r =
      let stopped : Runtime os = record r {
        total_window_timer = stop os r.total_window_timer;
        curfew_settlement_timer = stop os r.curfew_settlement_timer;
      } in
      do
        busy ← (if r.active_hook_count == 0 then has_work stopped else some true)
        (if busy then enter_grace e stopped else set_runtime_state (held e) sleep stopped)

  -- `work_window_expiry_cb`
  unfoldable pub work_window_expiry_cb : Env → Runtime os → Option (Runtime os)
  work_window_expiry_cb e =
      with_lock e (λ r. if is_active_state r.state then begin_curfew_unsafe e r else some r)

  -- `grace_period_expiry_cb`
  unfoldable pub grace_period_expiry_cb : Env → Runtime os → Option (Runtime os)
  grace_period_expiry_cb e = with_lock e (λ r.
      if same_state r.state grace_period
      then (do
        p ← force_all_cooperative_abort os r.pool
        u ← r.user_work
        set_runtime_state (held e) sleep (record r {
          grace_period_timer = stop os r.grace_period_timer;
          pool = p;
          user_work = some (os.reset u);
        }))
      else some r)

  -- `curfew_settlement_expiry_cb`
  unfoldable pub curfew_settlement_expiry_cb : Env → Runtime os → Option (Runtime os)
  curfew_settlement_expiry_cb e = with_lock e (λ r.
      if is_active_state r.state
      then (do
        idle ← is_system_completely_idle r
        (if idle then begin_curfew_unsafe e r else some r))
      else if same_state r.state grace_period
      then (do
        idle ← is_system_completely_idle r
        (if idle then set_runtime_state (held e) sleep r else some r))
      else some r)

  -- `start_work_cb`, the handler of EVENT_WORK_TICK.
  unfoldable pub start_work_cb : Env → Runtime os → Option (Runtime os)
  start_work_cb e r = if r.initialized then set_runtime_state e r.work_state r else some r

  -- `runtime_manager_set_active_state`
  unfoldable pub set_active_state : Bool → Runtime os → Runtime os
  set_active_state ui r = record r { work_state = if ui then ui_active else background_active }

  -- `runtime_get_state`
  unfoldable pub get_state : Env → Runtime os → RuntimeState
  get_state e r = if e.locked then r.state else sleep
