-- ===== src/Runtime/Tests.antt =====
-- components/runtime_manager run on queues and timers of a simple kind, and instances of its theorems.
use minimal_watch_firmware_e.Base.{
  ℕ, ◌+◌, ◌≡◌, refl, ◌⊎◌, Bool, true, false, not, ◌&&◌, Option, none, some, List, [], ◌∷◌, ◌++◌,
  arith, inl, inr, if◌then◌else◌, ltb, length, ◌>>=◌, Bool-cases,
}
use minimal_watch_firmware_e.Wakelock.{pos}
use minimal_watch_firmware_e.Runtime.{
  sleep, grace_period, ui_active, is_active_state, same_state, Env, Runtime,
}
use minimal_watch_firmware_e.Runtime.Platform.{is_active, Os, Laws, WorkType, user, WorkItem}
use minimal_watch_firmware_e.Runtime.Workers.{
  resume_all, suspend_all, start_user_work, stop_user_work, recover, abort_loop,
  force_all_mandatory_abort, force_all_cooperative_abort,
}
use minimal_watch_firmware_e.Runtime.Tasks.{
  advance, receive_work, worker_step, hard_abort, soft_abort, worker_hard_abort_cb,
  worker_soft_abort_cb,
}
use minimal_watch_firmware_e.Runtime.Calls.{
  schedule_user_work, schedule_system_work, register_hook, unregister_hook, remove_loop,
}
use minimal_watch_firmware_e.Runtime.Window.{
  set_runtime_state, start_work_cb, open_window, evaluate_early_curfew, has_work,
  reset_settlement_timer, begin_curfew_unsafe, curfew_settlement_expiry_cb, drain_loop,
  drain_pending_queue, fall_asleep, grace_period_expiry_cb, queue_hooks, set_active_state,
  work_window_expiry_cb,
}
use minimal_watch_firmware_e.Events
use minimal_watch_firmware_e.Events.{Registry, cleared_subscription}
use minimal_watch_firmware_e.Runtime.Init.{
  init, manager_init, pool_init, watchdog_init, new_workers,
}
use minimal_watch_firmware_e.Runtime.Start.{started_run-IsValid}
use minimal_watch_firmware_e.Runtime.Valid.{IsValid, IsAsleep}
use minimal_watch_firmware_e.Runtime.Sleep.{Reaches, sleeps}
use minimal_watch_firmware_e.Runtime.Curfew.{
  IsGraced, Rests, IsIdle, MovesPending, begin_curfew_lem, grace_expires,
}
use minimal_watch_firmware_e.Runtime.Hooks.{
  Registers, hooks_of, spec_register, spec_unregister, hooks_refine,
}
use minimal_watch_firmware_e.Runtime.Schedule.{Served, UserTaken, SystemTaken, schedule_answers}
use minimal_watch_firmware_e.Runtime.Run.{
  Call, tick, window_ends, grace_ends, schedules_user, registers, works, run, step, RestsAfter,
  window_rests, manager_returns,
}

-- A queue is its capacity and its items, a timer the time at which it expires.
abbrev pub SimpleQueue : Type 0
SimpleQueue = ℕ × List WorkItem

abbrev pub simple_send : WorkItem → SimpleQueue → Bool × SimpleQueue
simple_send x (n, l) = if ltb (length l) n then (true, (n, l ++ x ∷ [])) else (false, (n, l))

abbrev pub simple_receive : SimpleQueue → Option (WorkItem × SimpleQueue)
simple_receive (n, []) = none
simple_receive (n, x ∷ l) = some (x, (n, l))

abbrev pub simple_os : Os
simple_os = record {
  Queue = SimpleQueue;
  Timer = Option ℕ;
  new_queue = λ n. some (n, []);
  send = simple_send;
  receive = simple_receive;
  reset = λ q. (q.0, []);
  waiting = λ q. length q.1;
  new_timer = none;
  start_once = λ now d t. some (now + d);
  stop = λ t. none;
  is_active = λ t. elim t [ none ↦ false | some d ↦ true ];
}

simple_items-send :
    (x : WorkItem) (q : SimpleQueue)
    → (simple_send x q).1.1 ≡ (if ltb (length q.1) q.0 then q.1 ++ x ∷ [] else q.1)
simple_items-send x q = elim (Bool-cases (ltb (length q.1) q.0)) [
  | inl e ↦ rw e refl
  | inr e ↦ rw e refl
]

simple_sent : (x : WorkItem) (q : SimpleQueue) → (simple_send x q).0 ≡ ltb (length q.1) q.0
simple_sent x q = elim (Bool-cases (ltb (length q.1) q.0)) [ inl e ↦ rw e refl | inr e ↦ rw e refl ]

simple_capacity : (x : WorkItem) (q : SimpleQueue) → (simple_send x q).1.0 ≡ q.0
simple_capacity x q = elim (Bool-cases (ltb (length q.1) q.0)) [
  | inl e ↦ rw e refl
  | inr e ↦ rw e refl
]

simple_empty : (q : SimpleQueue) → q.1 ≡ [] → simple_receive q ≡ none
simple_empty (n, []) e = refl
simple_empty (n, x ∷ l) e = cc

simple_first :
    (q : SimpleQueue) (x : WorkItem) (l : List WorkItem)
    → q.1 ≡ x ∷ l
    → (q' : SimpleQueue) × (simple_receive q ≡ some (x, q')) × (q'.1 ≡ l) × (q'.0 ≡ q.0)
simple_first (n, []) x l e = cc
simple_first (n, y ∷ m) x l e = ((n, m), ground arith, ground arith, refl)

simple_new : (n : ℕ) (q : SimpleQueue) → simple_os.new_queue n ≡ some q → (q.1 ≡ []) × (q.0 ≡ n)
simple_new n q e = ground arith

simple_laws : Laws simple_os
simple_laws = record {
  items = λ q. q.1;
  capacity = λ q. q.0;
  new_empty = λ n q e. (simple_new n q e).0;
  new_capacity = λ n q e. (simple_new n q e).1;
  items-send = simple_items-send;
  was_sent = simple_sent;
  capacity-send = simple_capacity;
  receive_empty = simple_empty;
  receive_first = simple_first;
  items-reset = λ q. refl;
  capacity-reset = λ q. refl;
  waiting_lem = λ q. refl;
  new_inactive = refl;
  active-start = λ now d t. refl;
  active-stop = λ t. refl;
}

-- The static variables before the start.
abbrev pub cold : Runtime simple_os
cold = record {
  state = sleep;
  user_work = none;
  system_work = none;
  pending_user_work = none;
  pending_system_work = none;
  window_hooks = λ i. 0;
  active_hook_count = 0;
  initialized = false;
  window_start_time = 0;
  grace_start_time = 0;
  total_window_timer = none;
  grace_period_timer = none;
  curfew_settlement_timer = none;
  work_state = ui_active;
  shutdown_initialized = false;
  shutdown_sem = none;
  pool = record { workers = []; active_workers = pos 0; watched = false };
}

abbrev env : ℕ → Env
env t = record { now = t; locked = true; spawned = λ i. true }

abbrev item : ℕ → WorkType → WorkItem
item h t = record { handler = h; type = t; arg_payload = []; priority = 2 }

abbrev result : Option (Runtime simple_os) → Runtime simple_os
result none = cold
result (some r) = r

abbrev started : Runtime simple_os
started = result (init simple_os (env 5) cold)

-- `run` and `init` with all that they call opened.
simulate : List (Env × Call) → Option (Runtime simple_os)
unfolding run step init schedule_user_work register_hook start_work_cb set_runtime_state open_window
    evaluate_early_curfew has_work worker_step resume_all pool_init suspend_all watchdog_init
    new_workers advance receive_work reset_settlement_timer start_user_work remove_loop
    schedule_system_work unregister_hook hard_abort soft_abort worker_hard_abort_cb
    worker_soft_abort_cb begin_curfew_unsafe curfew_settlement_expiry_cb drain_loop
    drain_pending_queue fall_asleep grace_period_expiry_cb queue_hooks set_active_state
    work_window_expiry_cb abort_loop force_all_cooperative_abort force_all_mandatory_abort recover
    stop_user_work
simulate l = do r ← init simple_os (env 5) cold; run simple_os l r

-- A hook and a user item; a window; worker 0 takes the item and runs it past its hard limit, when the
-- window ends.
abbrev history : List (Env × Call)
history =
    (env 10, registers 77)
    ∷ (env 11, schedules_user (item 9 user))
    ∷ (env 20, tick)
    ∷ (env 21, works 0)
    ∷ (env 22, works 0)
    ∷ (env 23, works 0)
    ∷ (env 24, works 0)
    ∷ []

abbrev window : Runtime simple_os
window = result (simulate history)

-- The window ends while worker 0 runs, and another item is pending.
abbrev evening : List (Env × Call)
evening = (env 700020, window_ends) ∷ (env 700030, schedules_user (item 8 user)) ∷ []

abbrev grace : Runtime simple_os
grace = result (simulate (history ++ evening))

started_lem : init simple_os (env 5) cold ≡ some started
unfolding simulate
started_lem = refl

window_lem : run simple_os history started ≡ some window
unfolding simulate
window_lem = refl

window_state : (window.state ≡ ui_active) × (window.pool.active_workers ≡ pos 1)
unfolding simulate
window_state = (refl, refl)

grace_state : (grace.state ≡ grace_period) × (grace.pending_user_work ≡ some (5, item 8 user ∷ []))
unfolding simulate
grace_state = (refl, refl)

started_run-IsValid_example : IsValid simple_laws window
started_run-IsValid_example =
    started_run-IsValid simple_laws (env 5) history cold refl refl started_lem (omega arith)
      window_lem

window-IsValid : IsValid simple_laws window
window-IsValid =
    started_run-IsValid simple_laws (env 5) history cold refl refl started_lem (omega arith)
      window_lem

grace_lem : run simple_os (history ++ evening) started ≡ some grace
unfolding simulate
grace_lem = refl

grace-IsValid : IsValid simple_laws grace
grace-IsValid =
    started_run-IsValid simple_laws (env 5) (history ++ evening) cold refl refl started_lem
      (tt, (tt, (omega arith, (tt, (tt, (tt, (tt, (refl, (tt, tt))))))))) grace_lem

window_active : is_active_state window.state ≡ true
unfolding simulate
window_active = refl

window_awake : same_state window.state sleep ≡ false
unfolding simulate
window_awake = refl

window_runs : is_active simple_os window.total_window_timer ≡ true
unfolding simulate
window_runs = refl

window_rests_example :
    RestsAfter simple_laws ((env 700020, window_ends) ∷ []) window
    ⊎ RestsAfter simple_laws ((env 700020, window_ends) ∷ (env 900020, grace_ends) ∷ []) window
window_rests_example =
    window_rests simple_laws (env 700020) (env 900020) window refl refl window-IsValid window_active

manager_returns_example : Reaches simple_laws (step simple_os (env 700020) window_ends window)
manager_returns_example =
    manager_returns simple_laws (env 700020) window_ends window refl window-IsValid window_runs

sleeps_example :
    (r' : Runtime simple_os) × (set_runtime_state simple_os (env 50) sleep window ≡ some r')
    × IsAsleep simple_laws window r'
sleeps_example = sleeps simple_laws (env 50) window refl window-IsValid.ready window_awake

begin_curfew_lem_example :
    (r' : Runtime simple_os) × (begin_curfew_unsafe simple_os (env 700020) window ≡ some r')
    × ((IsGraced simple_laws window r' × (¬ IsIdle simple_laws window))
        ⊎ (Rests simple_laws r' × IsIdle simple_laws window))
begin_curfew_lem_example =
    begin_curfew_lem simple_laws window window-IsValid.ready (env 700020) window_awake

grace_expires_example :
    (r' : Runtime simple_os) × (grace_period_expiry_cb simple_os (env 900020) grace ≡ some r')
    × Rests simple_laws r'
    × MovesPending simple_laws grace r'
grace_expires_example =
    grace_expires simple_laws (env 900020) grace refl grace-IsValid.ready grace_state.0

hooks_refine_example :
    Registers (env 30) 78 window (register_hook simple_os (env 30) 78 window) (
      spec_register
        (window.initialized && not window.shutdown_initialized)
        true
        78
        (hooks_of window))
    × Registers
        (env 30)
        78
        window
        (unregister_hook simple_os (env 30) 78 window)
        (spec_unregister window.initialized true 78 (hooks_of window))
hooks_refine_example = hooks_refine (env 30) 78 window

schedule_answers_example :
    ((d : Bool × Runtime simple_os) × (schedule_user_work simple_os
          (env 30)
          (some (item 8 user))
          window
        ≡ some d)
      × Served simple_laws
          (UserTaken simple_laws true (same_state window.state grace_period))
          (some (item 8 user))
          window
          d
      × IsValid simple_laws d.1)
    × ((d : Bool × Runtime simple_os) × (schedule_system_work simple_os
            (env 30)
            (some (item 8 user))
            window
          ≡ some d)
        × Served simple_laws
            (SystemTaken simple_laws true (same_state window.state grace_period))
            (some (item 8 user))
            window
            d
        × IsValid simple_laws d.1)
schedule_answers_example =
    schedule_answers simple_laws (env 30) window window-IsValid (some (item 8 user))

-- No event has a handler.
abbrev no_handlers : Registry
no_handlers = record { subscriptions = λ _. cleared_subscription; initialized = true }

-- The handler of the work tick, at address 40.
abbrev first_handler : Option (Registry × Runtime simple_os) → ℕ
first_handler none = 0
first_handler (some (subscriptions, r)) = (subscriptions.subscriptions 2).handlers 0

subscribes_work_tick : first_handler (manager_init simple_os 40 (env 1) no_handlers cold) ≡ 40
unfolding manager_init init Events.subscribe
subscribes_work_tick = refl
