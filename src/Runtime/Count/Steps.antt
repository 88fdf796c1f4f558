-- ===== src/Runtime/Count/Steps.antt =====
-- The steps of the tasks and the watchdog's callbacks keep the count of active workers.
use mathlib.Core.Path.{subst}
use minimal_watch_firmware_e.Base.{
  >>=-eq-some, ℕ, ◌+◌, ◌-◌, ◌≡◌, refl, ap, sym, ◌∙◌, ◌≤◌, Bool, true, false, none, some, arith, inl,
  inr, Bool-cases, if◌then◌else◌, some_inj,
}
use minimal_watch_firmware_e.Wakelock.{ℤ, pos, increased, decreased}
use minimal_watch_firmware_e.Runtime.{Env, Runtime}
use minimal_watch_firmware_e.Runtime.Platform.{Os, WorkType, WorkItem, stop}
use minimal_watch_firmware_e.Runtime.Workers.{
  Place, receiving, taken, counted, ready, running, finished, leaving, evaluating, Task, Worker,
  Pool, start_user_work, stop_user_work,
}
use minimal_watch_firmware_e.Runtime.Window.{reset_settlement_timer, evaluate_early_curfew}
use minimal_watch_firmware_e.Runtime.Tasks.{
  was_one, worker_at, put, moved, receive_work, prepare, release_item, advance, worker_step,
  worker_soft_abort_cb, worker_hard_abort_cb, soft_abort, hard_abort,
}
use minimal_watch_firmware_e.Runtime.Count.{
  counts, is_running, task_counts, task_runs, busy-set_worker, weight, busy, IsTrue, IsCounted,
  AllTrue-worker_at, put-IsCounted, increased_pos, decreased_pos, recover_counts,
}

-- After the count was taken back the task stands where it does not count.
next_quiet :
    (b : Bool)
    → (is_running (if b then evaluating else receiving) ≡ false)
      × (counts (if b then evaluating else receiving) ≡ 0)
next_quiet true = (refl, refl)
next_quiet false = (refl, refl)

module _ (os : Os) where
  receive_work-pool :
      (t : WorkType) (r : Runtime os) {x : WorkItem} {r' : Runtime os}
      → receive_work os t r ≡ some (x, r')
      → r'.pool ≡ r.pool
  unfolding receive_work
  receive_work-pool t r e = ground arith

  reset-pool :
      (e : Env) (r : Runtime os) {r' : Runtime os}
      → reset_settlement_timer os e r ≡ some r'
      → r'.pool ≡ r.pool
  unfolding reset_settlement_timer
  reset-pool e r h = ground arith

  pub evaluate-pool :
      (e : Env) (r : Runtime os) {r' : Runtime os}
      → evaluate_early_curfew os e r ≡ some r'
      → r'.pool ≡ r.pool
  unfolding evaluate_early_curfew
  evaluate-pool e r h = ground arith

  -- The watchdog's part of a step leaves the task and the mark that it works alone.
  prepare_keeps :
      (e : Env) (x : WorkItem) (w : Worker os) {v : Worker os}
      → prepare os e x w ≡ some v
      → (v.working ≡ w.working) × (v.task_handle ≡ w.task_handle)
  unfolding start_user_work
  prepare_keeps e x w h = ground arith

  release_keeps :
      (x : WorkItem) (w : Worker os) {v : Worker os}
      → release_item os x w ≡ some v
      → (v.working ≡ w.working) × (v.task_handle ≡ w.task_handle)
  unfolding stop_user_work
  release_keeps x w h = ground arith

  module _ (e : Env) (i : ℕ) (w : Worker os) (t : Task) (r : Runtime os) (h : IsCounted os r.pool)
      (at : worker_at os i r.pool.workers ≡ some w) (has : w.task_handle ≡ some t) where
    -- A step from the task's place to another, with what the count becomes.
    to_place :
        (p : Place) (v : Worker os) (n : ℤ) (k : ℕ)
        → v.working ≡ is_running p
        → n ≡ pos k
        → k + counts t.place ≡ busy os r.pool.workers + counts p
        → IsCounted os (put os i (moved os t p v) n r).pool
    to_place p v n k f e c =
        put-IsCounted os i w (moved os t p v) n k r h at f e (omega (arith, c, ap task_counts has))

    is_true : w.working ≡ is_running t.place
    is_true = AllTrue-worker_at os i r.pool.workers h.1 at ∙ ap task_runs has

    counted_in : counts t.place ≤ busy os r.pool.workers
    counted_in = omega (
      arith,
      busy-set_worker os i (record w { task_handle = none }) r.pool.workers at,
      ap task_counts has,
    )

  same_count :
      (i : ℕ) (w : Worker os) (r r' : Runtime os)
      → r'.pool ≡ r.pool
      → IsCounted os r.pool
      → worker_at os i r.pool.workers ≡ some w
      → IsCounted os r'.pool × (worker_at os i r'.pool.workers ≡ some w)
  same_count i w r r' e h at = (
    subst (λ (p : Pool os). IsCounted os p) (sym e) h,
    ap (λ (p : Pool os). worker_at os i p.workers) e ∙ at,
  )

  advance-IsCounted :
      (e : Env) (i : ℕ) (w : Worker os) (t : Task) (p : Place) (r : Runtime os) {r' : Runtime os}
      → IsCounted os r.pool
      → worker_at os i r.pool.workers ≡ some w
      → w.task_handle ≡ some t
      → t.place ≡ p
      → advance os e i w t p r ≡ some r'
      → IsCounted os r'.pool
  unfolding advance
  advance-IsCounted e i w t receiving r h at has q s =
      let (d, got, put_in) = >>=-eq-some (receive_work os w.type r) _ s in
      let (h', at') = same_count i w r d.1 (receive_work-pool w.type r got) h at in
      let c =
        to_place e i w t d.1 h' at' has (taken d.0) w r.pool.active_workers
          (busy os d.1.pool.workers) (is_true e i w t r h at has ∙ ap is_running q)
          (h.0
            ∙ ap (λ (p : Pool os). pos (busy os p.workers)) (sym (receive_work-pool w.type r got)))
          (omega (arith, ap counts q)) in
      subst (λ (r' : Runtime os). IsCounted os r'.pool) (some_inj put_in) c
  advance-IsCounted e i w t (taken x) r h at has q s =
      subst (λ (r' : Runtime os). IsCounted os r'.pool) (some_inj s)
        (to_place e i w t r h at has (counted x) w _ _
          (is_true e i w t r h at has ∙ ap is_running q) (ap increased h.0 ∙ increased_pos _)
          (omega (arith, ap counts q)))
  advance-IsCounted e i w t (counted x) r h at has q s =
      let (r1, reset, rest) = >>=-eq-some (reset_settlement_timer os e r) _ s in
      let (v, prepared, put_in) = >>=-eq-some (prepare os e x w) _ rest in
      let (h', at') = same_count i w r r1 (reset-pool e r reset) h at in
      let kept = prepare_keeps e x w prepared in
      subst (λ (r' : Runtime os). IsCounted os r'.pool) (some_inj put_in)
        (to_place e i w t r1 h' at' has (ready x) v _ _
          (kept.0 ∙ is_true e i w t r h at has ∙ ap is_running q) h'.0 (omega (arith, ap counts q)))
  advance-IsCounted e i w t (ready x) r h at has q s =
      subst (λ (r' : Runtime os). IsCounted os r'.pool) (some_inj s)
        (to_place e i w t r h at has (running x) (record w { working = true }) _ _ refl h.0
          (omega (arith, ap counts q)))
  advance-IsCounted e i w t (running x) r h at has q s =
      subst (λ (r' : Runtime os). IsCounted os r'.pool) (some_inj s)
        (to_place e i w t r h at has (finished x) (record w { working = false }) _ _ refl h.0
          (omega (arith, ap counts q)))
  advance-IsCounted e i w t (finished x) r h at has q s =
      let (v, released, put_in) = >>=-eq-some (release_item os x w) _ s in
      let kept = release_keeps x w released in
      subst (λ (r' : Runtime os). IsCounted os r'.pool) (some_inj put_in)
        (to_place e i w t r h at has (leaving x) v _ _
          (kept.0 ∙ is_true e i w t r h at has ∙ ap is_running q) h.0 (omega (arith, ap counts q)))
  advance-IsCounted e i w t (leaving x) r h at has q s =
      let next : Place = if was_one r.pool.active_workers then evaluating else receiving in
      let here : counts t.place ≡ 1 = ap counts q in
      let least = counted_in e i w t r h at has in
      subst (λ (r' : Runtime os). IsCounted os r'.pool) (some_inj s)
        (to_place e i w t r h at has next w _ (busy os r.pool.workers - 1)
          (is_true e i w t r h at has
            ∙ ap is_running q
            ∙ sym (next_quiet (was_one r.pool.active_workers)).0)
          (ap decreased h.0 ∙ decreased_pos _ (omega arith))
          (omega (arith, (next_quiet (was_one r.pool.active_workers)).1)))
  advance-IsCounted e i w t evaluating r h at has q s =
      let z =
        to_place e i w t r h at has receiving w _ _ (is_true e i w t r h at has ∙ ap is_running q)
          h.0 (omega (arith, ap counts q)) in
      subst (λ (p : Pool os). IsCounted os p) (sym (evaluate-pool e _ s)) z

  -- A step of a worker's task.
  pub worker_step-IsCounted :
      (e : Env) (i : ℕ) (r : Runtime os) {r' : Runtime os}
      → IsCounted os r.pool
      → worker_step os e i r ≡ some r'
      → IsCounted os r'.pool
  unfolding worker_step
  worker_step-IsCounted e i r h s =
      let (w, at, s1) = >>=-eq-some (worker_at os i r.pool.workers) _ s in
      let (t, has, s2) = >>=-eq-some w.task_handle _ s1 in
      elim (Bool-cases t.suspended) [
        | inl b ↦ absurd (ground arith)
        | inr b ↦ advance-IsCounted e i w t t.place r h at has refl (rw b at s2)
      ]

  soft_keeps :
      (e : Env) (w : Worker os) {v : Worker os}
      → worker_soft_abort_cb os e w ≡ some v
      → (v.working ≡ w.working) × (v.task_handle ≡ w.task_handle)
  unfolding worker_soft_abort_cb
  soft_keeps e w h = ground arith

  pub soft_abort-IsCounted :
      (e : Env) (i : ℕ) (r : Runtime os) {r' : Runtime os}
      → IsCounted os r.pool
      → soft_abort os e i r ≡ some r'
      → IsCounted os r'.pool
  unfolding soft_abort
  soft_abort-IsCounted e i r h s =
      let (w, at, s1) = >>=-eq-some (worker_at os i r.pool.workers) _ s in
      let (v, soft, put_in) = >>=-eq-some (worker_soft_abort_cb os e w) _ s1 in
      let kept = soft_keeps e w soft in
      subst (λ (r' : Runtime os). IsCounted os r'.pool) (some_inj put_in)
        (put-IsCounted os i w v _ _ r h at
          (kept.0 ∙ AllTrue-worker_at os i r.pool.workers h.1 at ∙ ap task_runs (sym kept.1)) h.0
          (omega (arith, ap task_counts kept.1)))

  hard_counts :
      (e : Env) (w : Worker os) (m n : ℕ) {d : Worker os × ℤ}
      → m ≡ weight os w + n
      → IsTrue os w
      → worker_hard_abort_cb os e w (pos m) ≡ some d
      → (d.1 ≡ pos (weight os d.0 + n)) × IsTrue os d.0
  unfolding worker_hard_abort_cb
  hard_counts e w m n c t h =
      let (u, has, rest) = >>=-eq-some w.hard_close _ h in
      let marked : Worker os = record w { abort_flag = true; hard_close = stop os (some u) } in
      let z = recover_counts os (e.spawned w.worker_id) true marked m n c t in
      subst (λ (d : Worker os × ℤ). (d.1 ≡ pos (weight os d.0 + n)) × IsTrue os d.0) (some_inj rest)
        z

  pub hard_abort-IsCounted :
      (e : Env) (i : ℕ) (r : Runtime os) {r' : Runtime os}
      → IsCounted os r.pool
      → hard_abort os e i r ≡ some r'
      → IsCounted os r'.pool
  unfolding hard_abort
  hard_abort-IsCounted e i r h s =
      let (w, at, s1) = >>=-eq-some (worker_at os i r.pool.workers) _ s in
      let gone = busy-set_worker os i (record w { task_handle = none }) r.pool.workers at in
      let n : ℕ = busy os r.pool.workers - weight os w in
      let (d, hard, put_in) =
        >>=-eq-some (worker_hard_abort_cb os e w r.pool.active_workers) _ s1 in
      let c =
        hard_counts e w (busy os r.pool.workers) n {d = d} (omega (arith, gone))
          (AllTrue-worker_at os i r.pool.workers h.1 at)
          (ap (worker_hard_abort_cb os e w) (sym h.0) ∙ hard) in
      subst (λ (r' : Runtime os). IsCounted os r'.pool) (some_inj put_in)
        (put-IsCounted os i w d.0 d.1 _ r h at c.1 c.0 (omega (arith, gone)))
