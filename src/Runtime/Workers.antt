-- ===== src/Runtime/Workers.antt =====
-- components/runtime_manager/src/runtime_worker_pool.c and runtime_watchdog.c: the workers, what a
-- worker does between two accesses that others can see, and its recovery.
--
-- The count of active workers, an `atomic_int`, is a whole number here: between two calls it is at
-- most the number of workers, far from the bounds of an int.
use minimal_watch_firmware_e.Base.{
  ℕ, ◌*◌, ◌&&◌, Bool, true, false, Option, none, some, List, [], ◌∷◌, map, if◌then◌else◌,
}
use minimal_watch_firmware_e.Wakelock.{ℤ, decreased}
use minimal_watch_firmware_e.Runtime.Platform.{
  Os, WorkType, system, user, WorkItem, stop, start_once, init_timer,
}

-- Where a worker's task stands in `pool_worker_entry`: before `xQueueReceive`, with an item that is
-- not counted yet, counted, ready to run, in the item's handler, after the handler, before the
-- count is taken back, and before `runtime_manager_evaluate_early_curfew`.
pub data Place : Type 0 where
  receiving : Place
  taken counted ready running finished leaving : WorkItem → Place
  evaluating : Place

pub record Task : Type 0 where
  pub place : Place
  pub suspended : Bool

-- `worker_registry_t`
pub record Worker (os : Os) : Type 0 where
  pub worker_id : ℕ
  pub working : Bool
  pub type : WorkType
  pub task_handle : Option Task
  pub abort_flag : Bool
  pub soft_close : Option os.Timer
  pub hard_close : Option os.Timer

-- The static variables of both files. `watched` is whether the watchdog has the workers.
pub record Pool (os : Os) : Type 0 where
  pub workers : List (Worker os)
  pub active_workers : ℤ
  pub watched : Bool

abbrev pub pool_size : ℕ
pool_size = 6

abbrev pub user_allocation : ℕ
user_allocation = 2

abbrev pub system_allocation : ℕ
system_allocation = 4

abbrev pub timeout_soft_ms : ℕ
timeout_soft_ms = 30

abbrev pub timeout_hard_ms : ℕ
timeout_hard_ms = 10

abbrev pub is_user : WorkType → Bool
is_user user = true
is_user system = false

-- A task that was just created.
abbrev pub fresh_task : Task
fresh_task = record { place = receiving; suspended = false }

abbrev pub suspend : Task → Task
suspend t = record t { suspended = true }

abbrev pub resume : Task → Task
resume t = record t { suspended = false }

abbrev pub on_task : (Task → Task) → Option Task → Option Task
on_task f none = none
on_task f (some t) = some (f t)

abbrev pub spawned_task : (created resume : Bool) → Option Task
spawned_task false _ = none
spawned_task true true = some fresh_task
spawned_task true false = some (suspend fresh_task)

abbrev pub without_task : Option Task → ℤ → ℤ
without_task none n = n
without_task (some t) n = decreased n

module _ (os : Os) where
  abbrev pub resume_worker : Worker os → Worker os
  resume_worker w = record w { task_handle = on_task resume w.task_handle }

  abbrev pub suspend_worker : Worker os → Worker os
  suspend_worker w = record w { task_handle = on_task suspend w.task_handle }

  -- `worker_pool_resume_all` and `worker_pool_suspend_all`
  unfoldable pub resume_all : Pool os → Pool os
  resume_all p = record p { workers = map resume_worker p.workers }

  unfoldable pub suspend_all : Pool os → Pool os
  suspend_all p = record p { workers = map suspend_worker p.workers }

  -- `watchdog_start_user_work` and `watchdog_stop_user_work`; `none` is a failed assertion.
  unfoldable pub start_user_work : ℕ → Worker os → Option (Worker os)
  start_user_work now w = elim w.soft_close [
    | none ↦ none
    | some t ↦
        some
          (record w { soft_close = start_once os now (timeout_soft_ms * 1000) (stop os (some t)) })
  ]

  abbrev pub has_timers : Worker os → Bool
  has_timers w = elim w.soft_close [
    | none ↦ false
    | some t ↦ elim w.hard_close [ none ↦ false | some u ↦ true ]
  ]

  abbrev pub stop_timers : Worker os → Worker os
  stop_timers w = record w { soft_close = stop os w.soft_close; hard_close = stop os w.hard_close }

  unfoldable pub stop_user_work : Worker os → Option (Worker os)
  stop_user_work w = if has_timers w then some (stop_timers w) else none

  -- `watchdog_manager_init_stalled_worker`
  abbrev pub init_stalled_worker : Worker os → Worker os
  init_stalled_worker w = record w {
    soft_close = init_timer os w.soft_close;
    hard_close = init_timer os w.hard_close;
  }

  -- What `worker_pool_recover_stalled_worker` makes of a worker that was working, after its task
  -- was deleted: the fields that it keeps, the others zeroed, then a new task.
  abbrev pub kept : Worker os → Worker os
  kept w =
      let zeroed : Worker os = record {
        worker_id = w.worker_id;
        working = false;
        type = w.type;
        task_handle = none;
        abort_flag = false;
        soft_close = none;
        hard_close = none;
      } in
      if is_user w.type
      then init_stalled_worker
          (record zeroed { soft_close = w.soft_close; hard_close = w.hard_close })
      else zeroed

  -- `worker_pool_recover_stalled_worker`: `resumes` is its second argument.
  unfoldable pub recover : (created resumes : Bool) → Worker os → ℤ → Worker os × ℤ
  recover created resumes w active =
      if w.working
      then (
        record (kept w) { task_handle = spawned_task created resumes },
        without_task w.task_handle active,
      )
      else (w, active)

  -- The loop of `watchdog_force_all_mandatory_abort`.
  unfoldable pub abort_loop : (ℕ → Bool) → List (Worker os) → ℤ → List (Worker os) × ℤ
  abort_loop created [] active = ([], active)
  abort_loop created (w ∷ ws) active =
      let stopped : Worker os = if w.working && is_user w.type then stop_timers w else w in
      let (w', left) = recover (created w.worker_id) false stopped active in
      let (ws', last) = abort_loop created ws left in (w' ∷ ws', last)

  unfoldable pub force_all_mandatory_abort : (ℕ → Bool) → Pool os → Option (Pool os)
  force_all_mandatory_abort created p =
      if p.watched
      then (let (ws, n) = abort_loop created p.workers p.active_workers in
          some (record p { workers = ws; active_workers = n }))
      else none

  unfoldable pub force_all_cooperative_abort : Pool os → Option (Pool os)
  force_all_cooperative_abort p =
      if p.watched
      then some
          (record p { workers = map (λ (w : Worker os). record w { abort_flag = true }) p.workers })
      else none
