-- ===== src/Runtime/Start.antt =====
-- The start and the end of components/runtime_manager.
use mathlib.Core.Path.{subst}
use minimal_watch_firmware_e.Base.{
  ℕ, zero, suc, ◌+◌, ◌/◌, ◌≡◌, refl, ap, sym, ◌∙◌, Bool, true, false, Option, none, some, List, [],
  ◌∷◌, ◌++◌, arith, inl, inr, Bool-cases, some_inj, >>=-eq-some,
}
use minimal_watch_firmware_e.Wakelock.{pos}
use minimal_watch_firmware_e.Runtime.{
  sleep, same_state, max_user_work, max_system_work, Env, Runtime,
}
use minimal_watch_firmware_e.Runtime.Platform.{safe_timer_cleanup, Os, Laws, WorkType, user, system}
use minimal_watch_firmware_e.Runtime.Workers.{
  Worker, Pool, suspend_all, user_allocation, system_allocation,
}
use minimal_watch_firmware_e.Runtime.Window.{set_runtime_state}
use minimal_watch_firmware_e.Runtime.Sleep.{sleeps}
use minimal_watch_firmware_e.Runtime.Init.{
  new_worker, new_workers, watchdog_init, pool_init, pool_deinit, init, begin_deinit, finish_deinit,
}
use minimal_watch_firmware_e.Runtime.Count.{
  weight, busy, IsTrue, AllTrue, IsCounted, suspend_all-IsCounted,
}
use minimal_watch_firmware_e.Runtime.Valid.{IsReady, IsValid}
use minimal_watch_firmware_e.Runtime.Run.{Call, run, AllFair, run-IsValid}

module _ (os : Os) where
  -- No worker counts, and none claims to work.
  abbrev IsFresh : List (Worker os) → Type 0
  IsFresh ws = (busy os ws ≡ 0) × AllTrue os ws

  new_worker_idle :
      (c : Bool) (i : ℕ) (t : WorkType)
      → (weight os (new_worker os c i t) ≡ 0) × IsTrue os (new_worker os c i t)
  new_worker_idle true i t = (refl, refl)
  new_worker_idle false i t = (refl, refl)

  new_workers-IsFresh :
      (c : ℕ → Bool) (t : WorkType) (left i : ℕ) → IsFresh (new_workers os c t left i)
  unfolding new_workers
  new_workers-IsFresh c t zero i = (refl, tt)
  new_workers-IsFresh c t (suc left) i =
      let w = new_worker_idle (c i) i t in
      let ws = new_workers-IsFresh c t left (i + 1) in (omega (arith, w.0, ws.0), (w.1, ws.1))

  append-IsFresh : (xs ys : List (Worker os)) → IsFresh xs → IsFresh ys → IsFresh (xs ++ ys)
  append-IsFresh [] ys h k = k
  append-IsFresh (x ∷ xs) ys h k =
      let r = append-IsFresh xs ys (omega (arith, h.0), h.1.1) k in
      (omega (arith, h.0, r.0), (h.1.0, r.1))

  watchdog_init-IsFresh :
      (n : ℕ) (ws : List (Worker os)) → IsFresh ws → IsFresh (watchdog_init os n ws)
  unfolding watchdog_init
  watchdog_init-IsFresh zero ws h = h
  watchdog_init-IsFresh (suc n) [] h = h
  watchdog_init-IsFresh (suc n) (w ∷ ws) h =
      let r = watchdog_init-IsFresh n ws (omega (arith, h.0), h.1.1) in
      (omega (arith, h.0, r.0), (h.1.0, r.1))

  pool_init-IsCounted :
      (e : Env) (p : Pool os)
      → p.active_workers ≡ pos 0
      → IsCounted os (pool_init os e p) × ((pool_init os e p).watched ≡ true)
  unfolding pool_init suspend_all
  pool_init-IsCounted e p h =
      let f = watchdog_init-IsFresh user_allocation _ (
        append-IsFresh _ _ (new_workers-IsFresh e.spawned user user_allocation 0)
          (new_workers-IsFresh e.spawned system system_allocation user_allocation)) in
      let ready : Pool os = record p {
        workers = watchdog_init os user_allocation (
            new_workers os e.spawned user user_allocation 0
            ++ new_workers os e.spawned system system_allocation user_allocation);
        watched = true;
      } in
      (suspend_all-IsCounted os ready (h ∙ ap pos (sym f.0), f.1), refl)

module _ {os : Os} (laws : Laws os) where
  init-IsValid :
      (e : Env) (r : Runtime os) {r' : Runtime os}
      → r.initialized ≡ false
      → r.pool.active_workers ≡ pos 0
      → init os e r ≡ some r'
      → IsValid laws r' × (r'.state ≡ sleep)
  unfolding init
  init-IsValid e r off none_active s =
      let (u, at_u, s1) = >>=-eq-some (os.new_queue max_user_work) _ (rw off at s) in
      let (q, at_s, s2) = >>=-eq-some (os.new_queue max_system_work) _ s1 in
      let (pu, at_pu, s3) = >>=-eq-some (os.new_queue (max_user_work / 2)) _ s2 in
      let (ps, at_ps, s4) = >>=-eq-some (os.new_queue (max_system_work / 2)) _ s3 in
      let c = pool_init-IsCounted os e r.pool none_active in
      subst (λ (t : Runtime os). IsValid laws t × (t.state ≡ sleep)) (some_inj s4)
        (
          record {
            ready = record {
              user = (u, refl);
              system = (q, refl);
              pending_user = (pu, refl);
              pending_system = (ps, refl);
              total = (os.new_timer, refl);
              grace = (os.new_timer, refl);
              settlement = (os.new_timer, refl);
              hooks = omega arith;
              works = refl;
              watched = c.1;
              counted = c.0;
            };
            timed = (laws.new_inactive, laws.new_inactive, laws.new_inactive);
            quiet_user = λ n. laws.new_empty _ pu at_pu;
            quiet_system = λ n. laws.new_empty _ ps at_ps;
          },
          refl,
        )

  -- From a manager that is not initialized and counts no active worker, if `runtime_manager_init`
  -- returns, every history that follows in which each step is made leads to a valid state, provided
  -- that the clock is above 0 at each tick and that the callbacks of the window's and the grace
  -- period's timers have the lock in time. Valid: the queues and timers exist, at most four hooks
  -- are registered, `active_workers` is the number of workers between its two changes, `working` is
  -- set exactly while a worker's task is in a handler, no timer runs in sleep, the window's timer
  -- and not the grace timer runs in a window and the other way round in a grace period, and work is
  -- pending only in a grace period. A history is of work ticks, expiries, calls of other components,
  -- steps of workers and aborts of the watchdog.
  pub started_run-IsValid :
      (e : Env) (l : List (Env × Call)) (r : Runtime os) {r0 r1 : Runtime os}
      → r.initialized ≡ false
      → r.pool.active_workers ≡ pos 0
      → init os e r ≡ some r0
      → AllFair l
      → run os l r0 ≡ some r1
      → IsValid laws r1
  started_run-IsValid e l r off none_active started fair ran =
      run-IsValid laws l _ fair (init-IsValid e r off none_active started).0 ran

  -- What the shutdown leaves.
  abbrev pub IsShutDown : Runtime os → Type 0
  IsShutDown r =
      (r.initialized ≡ false)
      × (r.pool.active_workers ≡ pos 0)
      × (r.user_work ≡ none)
      × (r.total_window_timer ≡ none)
      × (r.pool.watched ≡ false)

  sleep_returns :
      (e : Env) (r : Runtime os)
      → IsReady os r
      → (r' : Runtime os) × (set_runtime_state os e sleep r ≡ some r')
  sleep_returns e r v = elim (Bool-cases e.locked) [
    | inr l ↦ (r, unfold set_runtime_state in simp l)
    | inl l ↦ elim (Bool-cases (same_state r.state sleep)) [
      | inl s ↦ (r, unfold set_runtime_state in simp (l, s))
      | inr awake ↦ let (r', ran, _) = sleeps laws e r l v awake in (r', ran)
    ]
  ]

  shut_down : Runtime os → Runtime os
  shut_down r = record r {
    shutdown_sem = none;
    pool = pool_deinit os r.pool;
    total_window_timer = safe_timer_cleanup os true r.total_window_timer;
    grace_period_timer = safe_timer_cleanup os true r.grace_period_timer;
    curfew_settlement_timer = safe_timer_cleanup os true r.curfew_settlement_timer;
    user_work = none;
    system_work = none;
    pending_user_work = none;
    pending_system_work = none;
    initialized = false;
  }

  cleaned : (t : Option os.Timer) → safe_timer_cleanup os true t ≡ none
  cleaned none = refl
  cleaned (some t) = refl

  shut_down-IsShutDown : (r : Runtime os) → IsShutDown (shut_down r)
  unfolding shut_down pool_deinit
  shut_down-IsShutDown r = (refl, refl, refl, cleaned r.total_window_timer, refl)

  -- From a valid state `runtime_manager_deinit` returns, whether or not the last window ended within
  -- its wait and whether or not the lock is had, and leaves a manager that is not initialized and
  -- counts no active worker, without the user queue and the window's timer, and a watchdog without
  -- workers.
  pub deinit_returns :
      (given : Bool) (e : Env) (r : Runtime os)
      → IsValid laws r
      → (r' : Runtime os) × (finish_deinit os given e (begin_deinit os r) ≡ some r') × IsShutDown r'
  unfolding finish_deinit begin_deinit shut_down
  deinit_returns true e r v =
      (shut_down (begin_deinit os r), refl, shut_down-IsShutDown (begin_deinit os r))
  deinit_returns false e r v =
      let begun : Runtime os = begin_deinit os r in
      let (r', ran) = sleep_returns e begun (record {
        user = v.ready.user;
        system = v.ready.system;
        pending_user = v.ready.pending_user;
        pending_system = v.ready.pending_system;
        total = v.ready.total;
        grace = v.ready.grace;
        settlement = v.ready.settlement;
        hooks = omega arith;
        works = v.ready.works;
        watched = v.ready.watched;
        counted = v.ready.counted;
      }) in
      (shut_down r', simp ran, shut_down-IsShutDown r')
