-- ===== src/Runtime/Curfew.antt =====
-- How a window of components/runtime_manager/src/runtime_manager.c ends: its curfew, the grace
-- period, and the callbacks of the three timers.
use minimal_watch_firmware_e.Base.{
  ◌*◌, ◌≡◌, refl, ap, sym, ◌∙◌, ◌⊎◌, Bool, true, false, some, [], map, inl, inr, Bool-cases,
  if◌then◌else◌, ◌==◌, ℕ, zero, suc, List, ◌∷◌, ltb, ◌||◌, length, arith,
}
use minimal_watch_firmware_e.Wakelock.{pos, positive}
use minimal_watch_firmware_e.Runtime.{
  RuntimeState, sleep, grace_period, same_state, is_active_state, window_grace_period_ms, Env,
  Runtime,
}
use minimal_watch_firmware_e.Runtime.Platform.{Os, Laws, WorkItem, stop, start_once}
use minimal_watch_firmware_e.Runtime.Workers.{Worker, Pool, force_all_cooperative_abort}
use minimal_watch_firmware_e.Runtime.Window.{
  held, has_work, queue_hooks, enter_grace, begin_curfew_unsafe, work_window_expiry_cb,
  grace_period_expiry_cb,
}
use minimal_watch_firmware_e.Runtime.Drain.{filled, hook_items, queue_hooks-filled}
use minimal_watch_firmware_e.Runtime.Count.{NoneWorks, busy, cooperative_abort-IsCounted}
use minimal_watch_firmware_e.Runtime.Valid.{IsReady, IsValid, IsAsleep, held_items, room, stop_lem}
use minimal_watch_firmware_e.Runtime.Sleep.{sleeps, IsAsleep-IsValid}
use minimal_watch_firmware_e.Runtime.Settle.{active-awake, grace-awake}

-- Whether there are hooks, tasks at work, system work or user work.
abbrev any_work : (hooks tasks : ℕ) → (system user : List WorkItem) → Bool
any_work h n s u = if h == 0 then (ltb 0 n || (ltb 0 (length s) || ltb 0 (length u))) else true

any_work-none :
    (h n : ℕ) (s u : List WorkItem)
    → any_work h n s u ≡ false
    → (h ≡ 0) × (n ≡ 0) × (s ≡ []) × (u ≡ [])
any_work-none h n [] [] e = (ground arith, ground arith, refl, refl)
any_work-none h n (x ∷ s) u e = absurd (ground arith)
any_work-none h n [] (x ∷ u) e = absurd (ground arith)

any_work-false :
    (h n : ℕ) (s u : List WorkItem) → h ≡ 0 → n ≡ 0 → s ≡ [] → u ≡ [] → any_work h n s u ≡ true → ⊥
any_work-false h n s u a b c d e =
    let none_left : any_work h n s u ≡ false = rw (a, b, c, d) refl in cc

positive_lem : (n : ℕ) → positive (pos n) ≡ ltb 0 n
positive_lem zero = refl
positive_lem (suc n) = ground arith

module _ {os : Os} (laws : Laws os) where
  -- A state in which the watch may sleep, and one in which the hooks were queued behind the other
  -- work and the grace period's timer runs.
  abbrev pub Rests : Runtime os → Type 0
  Rests r = IsValid laws r × (r.state ≡ sleep) × NoneWorks os r.pool.workers

  abbrev pub IsGraced : (r r' : Runtime os) → Type 0
  IsGraced r r' =
      IsValid laws r'
      × (r'.state ≡ grace_period)
      × (held_items laws r'.system_work
          ≡ filled (room laws r.system_work) (held_items laws r.system_work)
              (hook_items os laws r.active_hook_count 0 r.window_hooks))

  -- No hook is registered, no task stands between the two changes of the count, and nothing waits.
  abbrev pub IsIdle : Runtime os → Type 0
  IsIdle r =
      (r.active_hook_count ≡ 0)
      × (busy os r.pool.workers ≡ 0)
      × (held_items laws r.system_work ≡ [])
      × (held_items laws r.user_work ≡ [])

  IsAsleep-Rests : {r r' : Runtime os} → IsAsleep laws r r' → Rests r'
  IsAsleep-Rests a = (IsAsleep-IsValid laws a, a.state, a.idle)

  stopped : Runtime os → Runtime os
  stopped r = record r {
    total_window_timer = stop os r.total_window_timer;
    curfew_settlement_timer = stop os r.curfew_settlement_timer;
  }

  module _ (r : Runtime os) (v : IsReady os r) where
    stopped-IsReady : IsReady os (stopped r)
    unfolding stopped
    stopped-IsReady = record {
      user = v.user;
      system = v.system;
      pending_user = v.pending_user;
      pending_system = v.pending_system;
      total = (_, ap (stop os) v.total.1);
      grace = v.grace;
      settlement = (_, ap (stop os) v.settlement.1);
      hooks = v.hooks;
      works = v.works;
      watched = v.watched;
      counted = v.counted;
    }

    graced : Env → os.Timer → os.Queue → Runtime os
    unfolding stopped
    graced e t s = record (stopped r) {
      state = grace_period;
      grace_period_timer = start_once os e.now (window_grace_period_ms * 1000) (some t);
      grace_start_time = e.now;
      system_work = some (queue_hooks os r.active_hook_count 0 r.window_hooks s);
    }

    graced-IsGraced :
        (e : Env) (t : os.Timer) (s : os.Queue) → r.system_work ≡ some s → IsGraced r (graced e t s)
    unfolding graced stopped
    graced-IsGraced e t s at = (
      record {
        ready = record {
          user = v.user;
          system = (_, refl);
          pending_user = v.pending_user;
          pending_system = v.pending_system;
          total = (_, ap (stop os) v.total.1);
          grace = (_, refl);
          settlement = (_, ap (stop os) v.settlement.1);
          hooks = v.hooks;
          works = v.works;
          watched = v.watched;
          counted = v.counted;
        };
        timed = (stop_lem laws r.total_window_timer, laws.active-start e.now _ t);
        quiet_user = λ n. cc;
        quiet_system = λ n. cc;
      },
      refl,
      queue_hooks-filled os laws r.active_hook_count 0 r.window_hooks s ∙ (λ i.
          filled (room laws (sym at i)) (held_items laws (sym at i))
            (hook_items os laws r.active_hook_count 0 r.window_hooks)),
    )

    enters :
        (e : Env) (t : os.Timer) (s : os.Queue)
        → r.grace_period_timer ≡ some t
        → r.system_work ≡ some s
        → enter_grace os e (stopped r) ≡ some (graced e t s)
    unfolding stopped graced
    enters e t s at_t at_s = simp (at_t, at_s)

    busy_known :
        (if r.active_hook_count == 0 then has_work os (stopped r) else some true)
        ≡ some (
            any_work r.active_hook_count
              (busy os r.pool.workers)
              (held_items laws r.system_work)
              (held_items laws r.user_work))
    unfolding has_work stopped
    busy_known = elim (Bool-cases (r.active_hook_count == 0)) [
      | inr n ↦ rw n refl
      | inl z ↦
          let (u, at_u) = v.user in
          let (s, at_s) = v.system in
          rw
            (
              z,
              at_u,
              at_s,
              v.counted.0,
              laws.waiting_lem u,
              laws.waiting_lem s,
              positive_lem (busy os r.pool.workers),
            )
            refl
    ]

    -- Of a ready manager that does not sleep, `runtime_manager_begin_curfew_unsafe` returns. It
    -- returns in a valid sleep in which no worker works, exactly if no hook is registered, no task is
    -- counted as at work, and neither work queue holds an item. Otherwise it returns in a valid grace
    -- period, with each registered hook queued behind the other system work in order as far as it
    -- fits.
    pub begin_curfew_lem :
        (e : Env)
        → same_state r.state sleep ≡ false
        → (r' : Runtime os) × (begin_curfew_unsafe os e r ≡ some r')
          × ((IsGraced r r' × (¬ IsIdle r)) ⊎ (Rests r' × IsIdle r))
    unfolding begin_curfew_unsafe stopped graced
    begin_curfew_lem e awake =
        let b =
          any_work r.active_hook_count (busy os r.pool.workers) (held_items laws r.system_work)
            (held_items laws r.user_work) in
        let known = busy_known in
        elim (Bool-cases b) [
          | inl busy ↦
              let (t, at_t) = v.grace in
              let (s, at_s) = v.system in
              (
                graced e t s,
                simp (known, busy) (enters e t s at_t at_s),
                inl (
                  graced-IsGraced e t s at_s,
                  λ (z, n, sys, usr). absurd (any_work-false _ _ _ _ z n sys usr busy),
                ),
              )
          | inr idle ↦
              let (r', slept, a) = sleeps laws (held e) (stopped r) refl stopped-IsReady awake in
              (r', simp (known, idle) slept, inr (IsAsleep-Rests a, any_work-none _ _ _ _ idle))
        ]

    pub curfew_ends :
        (e : Env)
        → same_state r.state sleep ≡ false
        → (r' : Runtime os) × (begin_curfew_unsafe os e r ≡ some r') × (IsGraced r r' ⊎ Rests r')
    curfew_ends e awake =
        let (r', ran, ends) = begin_curfew_lem e awake in
        (r', ran, elim ends [ inl (g, _) ↦ inl g | inr (s, _) ↦ inr s ])

  cooperative_returns :
      (p : Pool os)
      → p.watched ≡ true
      → (p' : Pool os) × (force_all_cooperative_abort os p ≡ some p') × (p'.watched ≡ true)
  unfolding force_all_cooperative_abort
  cooperative_returns p h = (
    record p { workers = map (λ (w : Worker os). record w { abort_flag = true }) p.workers },
    rw h refl,
    h,
  )

  -- The total timer expires, in a window.
  pub window_expires :
      (e : Env) (r : Runtime os)
      → e.locked ≡ true
      → IsReady os r
      → is_active_state r.state ≡ true
      → (r' : Runtime os) × (work_window_expiry_cb os e r ≡ some r') × (IsGraced r r' ⊎ Rests r')
  unfolding work_window_expiry_cb
  window_expires e r l v a =
      let (r', ran, ends) = curfew_ends r v e (active-awake r.state a) in
      (r', simp (l, a) ran, ends)

  -- What the expiry of the grace period does before it goes to sleep.
  cut_short : Runtime os → Pool os → os.Queue → Runtime os
  cut_short r p u = record r {
    grace_period_timer = stop os r.grace_period_timer;
    pool = p;
    user_work = some (os.reset u);
  }

  -- The user work that was not done is dropped, and what was pending takes its place; system work is
  -- kept, and followed by what was pending.
  abbrev pub MovesPending : (r r' : Runtime os) → Type 0
  MovesPending r r' =
      (held_items laws r'.user_work
        ≡ filled (room laws r.user_work) [] (held_items laws r.pending_user_work))
      × (held_items laws r'.system_work
          ≡ filled (room laws r.system_work) (held_items laws r.system_work)
              (held_items laws r.pending_system_work))

  cut_short-MovesPending :
      (r : Runtime os) (p : Pool os) (u : os.Queue) {r' : Runtime os}
      → r.user_work ≡ some u
      → IsAsleep laws (cut_short r p u) r'
      → MovesPending r r'
  unfolding cut_short
  cut_short-MovesPending r p u at a = (
    a.moved_user
        ∙ (λ i.
            filled (laws.capacity-reset u i) (laws.items-reset u i)
              (held_items laws r.pending_user_work))
        ∙ (λ i. filled (room laws (sym at i)) [] (held_items laws r.pending_user_work)),
    a.moved_system,
  )

  -- Of a ready manager in a grace period, `grace_period_expiry_cb` with the lock returns in a valid
  -- sleep in which no worker works; the user queue then holds only what was pending for it, and the
  -- system queue what it held and then what was pending, each in order and up to its capacity.
  pub grace_expires :
      (e : Env) (r : Runtime os)
      → e.locked ≡ true
      → IsReady os r
      → r.state ≡ grace_period
      → (r' : Runtime os) × (grace_period_expiry_cb os e r ≡ some r') × Rests r' × MovesPending r r'
  unfolding grace_period_expiry_cb cut_short
  grace_expires e r l v g =
      let (p, ran, watched) = cooperative_returns r.pool v.watched in
      let (u, at) = v.user in
      let ready : IsReady os (cut_short r p u) = record {
        user = (_, refl);
        system = v.system;
        pending_user = v.pending_user;
        pending_system = v.pending_system;
        total = v.total;
        grace = (_, ap (stop os) v.grace.1);
        settlement = v.settlement;
        hooks = v.hooks;
        works = v.works;
        watched = watched;
        counted = cooperative_abort-IsCounted os r.pool p v.counted ran;
      } in
      let grace : same_state r.state grace_period ≡ true =
        ap (λ (s : RuntimeState). same_state s grace_period) g in
      let (r', slept, a) =
        sleeps laws (held e) (cut_short r p u) refl ready (grace-awake r.state grace) in
      (r', simp (l, grace, ran, at) slept, IsAsleep-Rests a, cut_short-MovesPending r p u at a)
