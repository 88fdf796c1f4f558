-- ===== src/Runtime/Tasks.antt =====
-- What the tasks of components/runtime_manager do: `pool_worker_entry` of src/runtime_worker_pool.c,
-- one step for each stretch between two accesses that others see, and the callbacks of the watchdog.
use minimal_watch_firmware_e.Base.{
  ℕ, zero, suc, ◌*◌, Bool, true, false, Option, none, some, List, [], ◌∷◌, if◌then◌else◌, ◌>>=◌,
}
use minimal_watch_firmware_e.Wakelock.{ℤ, pos, negsuc, increased, decreased}
use minimal_watch_firmware_e.Runtime.{Env, Runtime}
use minimal_watch_firmware_e.Runtime.Platform.{Os, WorkType, WorkItem, stop, start_once}
use minimal_watch_firmware_e.Runtime.Workers.{
  Place, receiving, taken, counted, ready, running, finished, leaving, evaluating, Task, Worker,
  is_user, timeout_hard_ms, start_user_work, stop_user_work, recover,
}
use minimal_watch_firmware_e.Runtime.Window.{reset_settlement_timer, evaluate_early_curfew}

-- `atomic_fetch_sub` gave 1.
abbrev pub was_one : ℤ → Bool
was_one (pos (suc zero)) = true
was_one (pos zero) = false
was_one (pos (suc (suc n))) = false
was_one (negsuc n) = false

module _ (os : Os) where
  abbrev pub worker_at : ℕ → List (Worker os) → Option (Worker os)
  worker_at i [] = none
  worker_at zero (w ∷ ws) = some w
  worker_at (suc i) (w ∷ ws) = worker_at i ws

  abbrev pub set_worker : ℕ → Worker os → List (Worker os) → List (Worker os)
  set_worker i v [] = []
  set_worker zero v (w ∷ ws) = v ∷ ws
  set_worker (suc i) v (w ∷ ws) = w ∷ set_worker i v ws

  abbrev pub moved : Task → Place → Worker os → Worker os
  moved t p w = record w { task_handle = some (record t { place = p }) }

  -- The worker goes on, and the count of active workers changes.
  abbrev pub put : ℕ → Worker os → ℤ → Runtime os → Runtime os
  put i w n r = record r {
    pool = record (r.pool) { workers = set_worker i w r.pool.workers; active_workers = n };
  }

  -- `xQueueReceive` by a worker of a type, which waits (`none`) while its queue is empty.
  unfoldable pub receive_work : WorkType → Runtime os → Option (WorkItem × Runtime os)
  receive_work t r =
      if is_user t
      then (do q ← r.user_work; d ← os.receive q; some (d.0, record r { user_work = some d.1 }))
      else (do q ← r.system_work; d ← os.receive q; some (d.0, record r { system_work = some d.1 }))

  -- Up to the handler: the abort flag, and the watchdog of a user item.
  abbrev pub prepare : Env → WorkItem → Worker os → Option (Worker os)
  prepare e x w =
      let cleared : Worker os = record w { abort_flag = false } in
      if is_user x.type then start_user_work os e.now cleared else some cleared

  -- After the handler.
  abbrev pub release_item : WorkItem → Worker os → Option (Worker os)
  release_item x w = do
    v ← (if is_user x.type then stop_user_work os w else some w)
    some (record v { abort_flag = true })

  -- The next step of worker `i`'s task, from a place; `none` where it waits or an assertion fails.
  unfoldable pub advance : Env → ℕ → Worker os → Task → Place → Runtime os → Option (Runtime os)
  advance e i w t receiving r = do
    d ← receive_work w.type r
    some (put i (moved t (taken d.0) w) r.pool.active_workers d.1)
  advance e i w t (taken x) r =
      some (put i (moved t (counted x) w) (increased r.pool.active_workers) r)
  advance e i w t (counted x) r = do
    r' ← reset_settlement_timer os e r
    v ← prepare e x w
    some (put i (moved t (ready x) v) r'.pool.active_workers r')
  advance e i w t (ready x) r =
      some (put i (moved t (running x) (record w { working = true })) r.pool.active_workers r)
  advance e i w t (running x) r =
      some (put i (moved t (finished x) (record w { working = false })) r.pool.active_workers r)
  advance e i w t (finished x) r = do
    v ← release_item x w
    some (put i (moved t (leaving x) v) r.pool.active_workers r)
  advance e i w t (leaving x) r =
      let next : Place = if was_one r.pool.active_workers then evaluating else receiving in
      some (put i (moved t next w) (decreased r.pool.active_workers) r)
  advance e i w t evaluating r =
      evaluate_early_curfew os e (put i (moved t receiving w) r.pool.active_workers r)

  -- A step of worker `i`, if it has a task that is not suspended.
  unfoldable pub worker_step : Env → ℕ → Runtime os → Option (Runtime os)
  worker_step e i r = do
    w ← worker_at i r.pool.workers
    t ← w.task_handle
    (if t.suspended then none else advance e i w t t.place r)

  -- `worker_soft_abort_cb`
  unfoldable pub worker_soft_abort_cb : Env → Worker os → Option (Worker os)
  worker_soft_abort_cb e w = do
    t ← w.hard_close
    some (record w {
      abort_flag = true;
      soft_close = stop os w.soft_close;
      hard_close = start_once os e.now (timeout_hard_ms * 1000) (stop os (some t));
    })

  -- `worker_hard_abort_cb`
  unfoldable pub worker_hard_abort_cb : Env → Worker os → ℤ → Option (Worker os × ℤ)
  worker_hard_abort_cb e w active = do
    t ← w.hard_close
    some (
        recover os (e.spawned w.worker_id) true
          (record w { abort_flag = true; hard_close = stop os (some t) }) active)

  -- The two callbacks at worker `i`.
  unfoldable pub soft_abort : Env → ℕ → Runtime os → Option (Runtime os)
  soft_abort e i r = do
    w ← worker_at i r.pool.workers
    v ← worker_soft_abort_cb e w
    some (put i v r.pool.active_workers r)

  unfoldable pub hard_abort : Env → ℕ → Runtime os → Option (Runtime os)
  hard_abort e i r = do
    w ← worker_at i r.pool.workers
    v ← worker_hard_abort_cb e w r.pool.active_workers
    some (put i v.0 v.1 r)
