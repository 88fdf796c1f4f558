-- ===== src/Runtime/Keeps.antt =====
-- The tasks and calls of components/runtime_manager keep what holds of its state.
use mathlib.Core.Path.{subst}
use minimal_watch_firmware_e.Base.{
  ℕ, ◌≡◌, refl, sym, ◌∙◌, true, false, Option, some, arith, inl, inr, Bool-cases, some_inj,
  >>=-eq-some,
}
use minimal_watch_firmware_e.Wakelock.{ℤ}
use minimal_watch_firmware_e.Runtime.{grace_period, same_state, Env, Runtime}
use minimal_watch_firmware_e.Runtime.Platform.{Os, Laws, WorkType, WorkItem}
use minimal_watch_firmware_e.Runtime.Workers.{
  Place, receiving, taken, counted, ready, running, finished, leaving, evaluating, Task, Worker,
  Pool, is_user,
}
use minimal_watch_firmware_e.Runtime.Window.{reset_settlement_timer}
use minimal_watch_firmware_e.Runtime.Tasks.{
  worker_at, put, receive_work, prepare, release_item, advance, worker_step, soft_abort, hard_abort,
  worker_soft_abort_cb, worker_hard_abort_cb,
}
use minimal_watch_firmware_e.Runtime.Count.{IsCounted}
use minimal_watch_firmware_e.Runtime.Count.Steps.{
  evaluate-pool, worker_step-IsCounted, soft_abort-IsCounted, hard_abort-IsCounted,
}
use minimal_watch_firmware_e.Runtime.Valid.{IsValid, IsEmpty}
use minimal_watch_firmware_e.Runtime.Sleep.{Reaches}
use minimal_watch_firmware_e.Runtime.Settle.{evaluate-Reaches, reset-Reaches}

module _ {os : Os} (laws : Laws os) where
  -- A state that was reached is the one that a call returned.
  pub reached :
      {o : Option (Runtime os)} {r' : Runtime os} → Reaches laws o → o ≡ some r' → IsValid laws r'
  reached (r, ran, v) e = subst (λ (s : Runtime os). IsValid laws s) (some_inj (sym ran ∙ e)) v

  module _ (r : Runtime os) (v : IsValid laws r) where
    -- The queues hold something else, the pending ones only in a grace period.
    pub with_queues :
        (u s pu ps : Option os.Queue)
        → (q : os.Queue) × (u ≡ some q)
        → (q : os.Queue) × (s ≡ some q)
        → (q : os.Queue) × (pu ≡ some q)
        → (q : os.Queue) × (ps ≡ some q)
        → (same_state r.state grace_period ≡ false → IsEmpty laws pu)
        → (same_state r.state grace_period ≡ false → IsEmpty laws ps)
        → IsValid laws (record r {
          user_work = u;
          system_work = s;
          pending_user_work = pu;
          pending_system_work = ps;
        })
    with_queues u s pu ps at_u at_s at_pu at_ps quiet_u quiet_s = record {
      ready = record {
        user = at_u;
        system = at_s;
        pending_user = at_pu;
        pending_system = at_ps;
        total = v.ready.total;
        grace = v.ready.grace;
        settlement = v.ready.settlement;
        hooks = v.ready.hooks;
        works = v.ready.works;
        watched = v.ready.watched;
        counted = v.ready.counted;
      };
      timed = v.timed;
      quiet_user = quiet_u;
      quiet_system = quiet_s;
    }

    pub with_work :
        (u s : Option os.Queue)
        → (q : os.Queue) × (u ≡ some q)
        → (q : os.Queue) × (s ≡ some q)
        → IsValid laws (record r { user_work = u; system_work = s })
    with_work u s at_u at_s =
        with_queues u s r.pending_user_work r.pending_system_work at_u at_s v.ready.pending_user
          v.ready.pending_system v.quiet_user v.quiet_system

    pub with_pending :
        (pu ps : Option os.Queue)
        → (q : os.Queue) × (pu ≡ some q)
        → (q : os.Queue) × (ps ≡ some q)
        → same_state r.state grace_period ≡ true
        → IsValid laws (record r { pending_user_work = pu; pending_system_work = ps })
    with_pending pu ps at_pu at_ps g =
        with_queues r.user_work r.system_work pu ps v.ready.user v.ready.system at_pu at_ps
          (λ n. cc) (λ n. cc)

    -- A worker and the count changed.
    landed :
        (i : ℕ) (w : Worker os) (n : ℤ) {r' : Runtime os}
        → put os i w n r ≡ r'
        → IsCounted os r'.pool
        → IsValid laws r'
    landed i w n e c =
        subst (λ (s : Runtime os). IsValid laws s) e
          (record {
            ready = record {
              user = v.ready.user;
              system = v.ready.system;
              pending_user = v.ready.pending_user;
              pending_system = v.ready.pending_system;
              total = v.ready.total;
              grace = v.ready.grace;
              settlement = v.ready.settlement;
              hooks = v.ready.hooks;
              works = v.ready.works;
              watched = v.ready.watched;
              counted = subst (λ (s : Runtime os). IsCounted os s.pool) (sym e) c;
            };
            timed = v.timed;
            quiet_user = v.quiet_user;
            quiet_system = v.quiet_system;
          })

    receive_work-IsValid :
        (t : WorkType) {d : WorkItem × Runtime os} → receive_work os t r ≡ some d → IsValid laws d.1
    unfolding receive_work
    receive_work-IsValid t e = elim (Bool-cases (is_user t)) [
      | inl u ↦
          let (q, at, rest) = >>=-eq-some r.user_work _ (rw u at e) in
          let (d, got, done) = >>=-eq-some (os.receive q) _ rest in
          subst (λ (d : WorkItem × Runtime os). IsValid laws d.1) (some_inj done)
            (with_work (some d.1) r.system_work (d.1, refl) v.ready.system)
      | inr s ↦
          let (q, at, rest) = >>=-eq-some r.system_work _ (rw s at e) in
          let (d, got, done) = >>=-eq-some (os.receive q) _ rest in
          subst (λ (d : WorkItem × Runtime os). IsValid laws d.1) (some_inj done)
            (with_work r.user_work (some d.1) v.ready.user (d.1, refl))
    ]

  advance-IsValid :
      (e : Env) (i : ℕ) (w : Worker os) (t : Task) (p : Place) (r : Runtime os) {r' : Runtime os}
      → IsValid laws r
      → advance os e i w t p r ≡ some r'
      → IsCounted os r'.pool
      → IsValid laws r'
  unfolding advance
  advance-IsValid e i w t receiving r v s c =
      let (d, got, put_in) = >>=-eq-some (receive_work os w.type r) _ s in
      landed d.1 (receive_work-IsValid r v w.type got) i _ _ (some_inj put_in) c
  advance-IsValid e i w t (taken x) r v s c = landed r v i _ _ (some_inj s) c
  advance-IsValid e i w t (counted x) r v s c =
      let (r1, reset, rest) = >>=-eq-some (reset_settlement_timer os e r) _ s in
      let (w', prepared, put_in) = >>=-eq-some (prepare os e x w) _ rest in
      landed r1 (reached (reset-Reaches laws r v e) reset) i _ _ (some_inj put_in) c
  advance-IsValid e i w t (ready x) r v s c = landed r v i _ _ (some_inj s) c
  advance-IsValid e i w t (running x) r v s c = landed r v i _ _ (some_inj s) c
  advance-IsValid e i w t (finished x) r v s c =
      let (w', released, put_in) = >>=-eq-some (release_item os x w) _ s in
      landed r v i _ _ (some_inj put_in) c
  advance-IsValid e i w t (leaving x) r v s c = landed r v i _ _ (some_inj s) c
  advance-IsValid e i w t evaluating r v s c =
      let d = subst (λ (p : Pool os). IsCounted os p) (evaluate-pool os e _ s) c in
      reached (evaluate-Reaches laws _ (landed r v i _ _ refl d) e) s

  -- A step of a worker's task, and the watchdog's callbacks.
  pub worker_step-IsValid :
      (e : Env) (i : ℕ) (r : Runtime os) {r' : Runtime os}
      → IsValid laws r
      → worker_step os e i r ≡ some r'
      → IsValid laws r'
  unfolding worker_step
  worker_step-IsValid e i r v s =
      let c = worker_step-IsCounted os e i r v.ready.counted s in
      let (w, at, s1) = >>=-eq-some (worker_at os i r.pool.workers) _ s in
      let (t, has, s2) = >>=-eq-some w.task_handle _ s1 in
      elim (Bool-cases t.suspended) [
        | inl b ↦ absurd (ground arith)
        | inr b ↦ advance-IsValid e i w t t.place r v (rw b at s2) c
      ]

  pub soft_abort-IsValid :
      (e : Env) (i : ℕ) (r : Runtime os) {r' : Runtime os}
      → IsValid laws r
      → soft_abort os e i r ≡ some r'
      → IsValid laws r'
  unfolding soft_abort
  soft_abort-IsValid e i r v s =
      let c = soft_abort-IsCounted os e i r v.ready.counted s in
      let (w, at, s1) = >>=-eq-some (worker_at os i r.pool.workers) _ s in
      let (w', soft, put_in) = >>=-eq-some (worker_soft_abort_cb os e w) _ s1 in
      landed r v i _ _ (some_inj put_in) c

  pub hard_abort-IsValid :
      (e : Env) (i : ℕ) (r : Runtime os) {r' : Runtime os}
      → IsValid laws r
      → hard_abort os e i r ≡ some r'
      → IsValid laws r'
  unfolding hard_abort
  hard_abort-IsValid e i r v s =
      let c = hard_abort-IsCounted os e i r v.ready.counted s in
      let (w, at, s1) = >>=-eq-some (worker_at os i r.pool.workers) _ s in
      let (d, hard, put_in) =
        >>=-eq-some (worker_hard_abort_cb os e w r.pool.active_workers) _ s1 in
      landed r v i _ _ (some_inj put_in) c
