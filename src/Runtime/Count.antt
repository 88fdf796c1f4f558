-- ===== src/Runtime/Count.antt =====
-- The count of active workers of components/runtime_manager/src/runtime_worker_pool.c, through every
-- step of a worker and every abort.
pub mod Steps
use minimal_watch_firmware_e.Base.{
  ℕ, zero, suc, ◌+◌, ◌-◌, ◌≡◌, refl, ap, sym, ◌∙◌, ◌≤◌, ◌<◌, Bool, true, false, ◌&&◌, Option, none,
  some, List, [], ◌∷◌, map, arith, inl, inr, Bool-cases, Option-cases, if◌then◌else◌, some_inj,
}
use minimal_watch_firmware_e.Wakelock.{ℤ, pos, negsuc, increased, decreased}
use minimal_watch_firmware_e.Runtime.{Env, Runtime}
use minimal_watch_firmware_e.Runtime.Platform.{Os, WorkItem}
use minimal_watch_firmware_e.Runtime.Workers.{
  Place, receiving, taken, counted, ready, running, finished, leaving, evaluating, Task, Worker,
  Pool, is_user, stop_timers, suspend_worker, spawned_task, resume_all, suspend_all, recover,
  abort_loop, force_all_mandatory_abort, force_all_cooperative_abort, start_user_work,
  stop_user_work,
}
use minimal_watch_firmware_e.Runtime.Tasks.{
  worker_at, set_worker, put, worker_soft_abort_cb, worker_hard_abort_cb,
}

-- Whether a task stands between the two changes of the count, as a number.
abbrev pub counts : Place → ℕ
counts receiving = 0
counts (taken x) = 0
counts (counted x) = 1
counts (ready x) = 1
counts (running x) = 1
counts (finished x) = 1
counts (leaving x) = 1
counts evaluating = 0

abbrev pub is_running : Place → Bool
is_running (running x) = true
is_running receiving = false
is_running (taken x) = false
is_running (counted x) = false
is_running (ready x) = false
is_running (finished x) = false
is_running (leaving x) = false
is_running evaluating = false

abbrev pub task_counts : Option Task → ℕ
task_counts none = 0
task_counts (some t) = counts t.place

abbrev pub task_runs : Option Task → Bool
task_runs none = false
task_runs (some t) = is_running t.place

decreased_pos : (m : ℕ) → 0 < m → decreased (pos m) ≡ pos (m - 1)
decreased_pos zero h = elim h [ ]
decreased_pos (suc m) h = ap pos (omega arith)

increased_pos : (m : ℕ) → increased (pos m) ≡ pos (m + 1)
increased_pos m = ap pos (omega arith)

is_running-counts : (p : Place) → is_running p ≡ true → counts p ≡ 1
is_running-counts p h = ground arith

-- A task that runs a handler is one that counts.
runs_counts :
    (o : Option Task) → task_runs o ≡ true → (t : Task) × (o ≡ some t) × (counts t.place ≡ 1)
runs_counts none h = cc
runs_counts (some t) h = (t, refl, is_running-counts t.place h)

spawned_fresh :
    (c b : Bool) → (task_counts (spawned_task c b) ≡ 0) × (task_runs (spawned_task c b) ≡ false)
spawned_fresh false b = (refl, refl)
spawned_fresh true false = (refl, refl)
spawned_fresh true true = (refl, refl)

module _ (os : Os) where
  abbrev pub weight : Worker os → ℕ
  weight w = task_counts w.task_handle

  abbrev pub busy : List (Worker os) → ℕ
  busy [] = 0
  busy (w ∷ ws) = weight w + busy ws

  -- `working` is set exactly while the task is in a handler.
  abbrev pub IsTrue : Worker os → Type 0
  IsTrue w = w.working ≡ task_runs w.task_handle

  abbrev pub AllTrue : List (Worker os) → Type 0
  AllTrue [] = Unit {0}
  AllTrue (w ∷ ws) = IsTrue w × AllTrue ws

  abbrev pub IsCounted : Pool os → Type 0
  IsCounted p = (p.active_workers ≡ pos (busy p.workers)) × AllTrue p.workers

  pub AllTrue-worker_at :
      (i : ℕ) (ws : List (Worker os)) {w : Worker os}
      → AllTrue ws
      → worker_at os i ws ≡ some w
      → IsTrue w
  AllTrue-worker_at i [] h e = cc
  AllTrue-worker_at zero (v ∷ ws) h e = rw (← some_inj e) h.0
  AllTrue-worker_at (suc i) (v ∷ ws) h e = AllTrue-worker_at i ws h.1 e

  pub AllTrue-set_worker :
      (i : ℕ) (v : Worker os) (ws : List (Worker os))
      → IsTrue v
      → AllTrue ws
      → AllTrue (set_worker os i v ws)
  AllTrue-set_worker i v [] t h = h
  AllTrue-set_worker zero v (w ∷ ws) t h = (t, h.1)
  AllTrue-set_worker (suc i) v (w ∷ ws) t h = (h.0, AllTrue-set_worker i v ws t h.1)

  pub busy-set_worker :
      (i : ℕ) (v : Worker os) (ws : List (Worker os)) {w : Worker os}
      → worker_at os i ws ≡ some w
      → busy (set_worker os i v ws) + weight w ≡ busy ws + weight v
  busy-set_worker i v [] e = cc
  busy-set_worker zero v (w ∷ ws) e = rw (← some_inj e) (omega arith)
  busy-set_worker (suc i) v (w ∷ ws) e = omega (arith, busy-set_worker i v ws e)

  busy-map :
      (f : Worker os → Worker os) (ws : List (Worker os))
      → ((w : Worker os) → weight (f w) ≡ weight w)
      → busy (map f ws) ≡ busy ws
  busy-map f [] h = refl
  busy-map f (w ∷ ws) h = omega (arith, h w, busy-map f ws h)

  AllTrue-map :
      (f : Worker os → Worker os) (ws : List (Worker os))
      → ((w : Worker os) → IsTrue w → IsTrue (f w))
      → AllTrue ws
      → AllTrue (map f ws)
  AllTrue-map f [] h a = a
  AllTrue-map f (w ∷ ws) h a = (h w a.0, AllTrue-map f ws h a.1)

  pub resume_all-IsCounted : (p : Pool os) → IsCounted p → IsCounted (resume_all os p)
  unfolding resume_all
  resume_all-IsCounted p h = (
    h.0 ∙ ap pos (sym (busy-map _ p.workers (λ w. ground arith))),
    AllTrue-map _ p.workers (λ w t. ground arith) h.1,
  )

  pub suspend_all-IsCounted : (p : Pool os) → IsCounted p → IsCounted (suspend_all os p)
  unfolding suspend_all
  suspend_all-IsCounted p h = (
    h.0 ∙ ap pos (sym (busy-map _ p.workers (λ w. ground arith))),
    AllTrue-map _ p.workers (λ w t. ground arith) h.1,
  )

  pub recover_counts :
      (c b : Bool) (w : Worker os) (m n : ℕ)
      → m ≡ weight w + n
      → IsTrue w
      → ((recover os c b w (pos m)).1 ≡ pos (weight (recover os c b w (pos m)).0 + n))
        × IsTrue (recover os c b w (pos m)).0
  unfolding recover
  recover_counts c b w m n e t =
      ground (arith, decreased_pos m, runs_counts w.task_handle, spawned_fresh c b)

  -- The aborts before a sleep keep the count, and leave no worker that works.
  abbrev pub NoneWorks : List (Worker os) → Type 0
  NoneWorks [] = Unit {0}
  NoneWorks (w ∷ ws) = (w.working ≡ false) × NoneWorks ws

  abbrev pub Aborted : List (Worker os) × ℤ → ℕ → Type 0
  Aborted r n = (r.1 ≡ pos (busy r.0 + n)) × AllTrue r.0 × NoneWorks r.0

  abbrev stopped : Worker os → Worker os
  stopped w = if w.working && is_user w.type then stop_timers os w else w

  stopped_lem :
      (w : Worker os)
      → (weight (stopped w) ≡ weight w)
        × ((stopped w).working ≡ w.working)
        × ((stopped w).task_handle ≡ w.task_handle)
  stopped_lem w = elim (Bool-cases (w.working && is_user w.type)) [
    | inl e ↦ rw e (refl, refl, refl)
    | inr e ↦ rw e (refl, refl, refl)
  ]

  recover_stops : (c b : Bool) (w : Worker os) (z : ℤ) → (recover os c b w z).0.working ≡ false
  unfolding recover
  recover_stops c b w z = ground arith

  Aborted-cons :
      (w : Worker os) (r : List (Worker os) × ℤ) (n : ℕ)
      → IsTrue w
      → w.working ≡ false
      → Aborted r (n + weight w)
      → Aborted (w ∷ r.0, r.1) n
  Aborted-cons w r n t f a = (a.0 ∙ ap pos (omega arith), (t, a.1), (f, a.2))

  abort_loop-Aborted :
      (created : ℕ → Bool) (ws : List (Worker os)) (m n : ℕ)
      → m ≡ busy ws + n
      → AllTrue ws
      → Aborted (abort_loop os created ws (pos m)) n
  unfolding abort_loop
  abort_loop-Aborted created [] m n e h = (ap pos (omega arith), tt, tt)
  abort_loop-Aborted created (w ∷ ws) m n e h =
      let s = stopped_lem w in
      let k : ℕ = busy ws + n in
      let r = recover os (created w.worker_id) false (stopped w) (pos m) in
      let c =
        recover_counts (created w.worker_id) false (stopped w) m k (omega arith)
          (s.1 ∙ h.0 ∙ ap task_runs (sym s.2)) in
      let next =
        abort_loop-Aborted created ws (weight r.0 + k) (n + weight r.0) (omega arith) h.1 in
      let same : Aborted (abort_loop os created ws r.1) (n + weight r.0) = rw c.0 next in
      Aborted-cons r.0 (abort_loop os created ws r.1) n c.1
        (recover_stops (created w.worker_id) false (stopped w) (pos m)) same

  pub mandatory_abort-IsCounted :
      (created : ℕ → Bool) (p p' : Pool os)
      → IsCounted p
      → force_all_mandatory_abort os created p ≡ some p'
      → IsCounted p' × NoneWorks p'.workers
  unfolding force_all_mandatory_abort
  mandatory_abort-IsCounted created p p' h e =
      let a = abort_loop-Aborted created p.workers (busy p.workers) 0 (omega arith) h.1 in
      let b : Aborted (abort_loop os created p.workers p.active_workers) 0 = rw h.0 a in
      let l = abort_loop os created p.workers p.active_workers in
      let z : busy l.0 + 0 ≡ busy l.0 = omega arith in ground (arith, b, ap pos z)

  pub cooperative_abort-IsCounted :
      (p p' : Pool os) → IsCounted p → force_all_cooperative_abort os p ≡ some p' → IsCounted p'
  unfolding force_all_cooperative_abort
  cooperative_abort-IsCounted p p' h e =
      let f = λ (w : Worker os). let v : Worker os = record w { abort_flag = true } in v in
      let b = busy-map f p.workers (λ w. refl) in
      let t = AllTrue-map f p.workers (λ w t. t) h.1 in ground (arith, b, t, ap pos (sym b))

  NoneWorks-suspend :
      (ws : List (Worker os)) → NoneWorks ws → NoneWorks (map (suspend_worker os) ws)
  NoneWorks-suspend [] h = h
  NoneWorks-suspend (w ∷ ws) h = (h.0, NoneWorks-suspend ws h.1)

  pub suspend_all-NoneWorks :
      (p : Pool os) → NoneWorks p.workers → NoneWorks (suspend_all os p).workers
  unfolding suspend_all
  suspend_all-NoneWorks p h = NoneWorks-suspend p.workers h

  -- A worker is replaced by one that is true to its task, and the count follows.
  pub put-IsCounted :
      (i : ℕ) (w v : Worker os) (n : ℤ) (k : ℕ) (r : Runtime os)
      → IsCounted r.pool
      → worker_at os i r.pool.workers ≡ some w
      → IsTrue v
      → n ≡ pos k
      → k + weight w ≡ busy r.pool.workers + weight v
      → IsCounted (put os i v n r).pool
  put-IsCounted i w v n k r h at t e c = (
    e ∙ ap pos (omega (arith, busy-set_worker i v r.pool.workers at)),
    AllTrue-set_worker i v r.pool.workers t h.1,
  )
