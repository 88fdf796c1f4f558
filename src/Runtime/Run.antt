-- ===== src/Runtime/Run.antt =====
-- Histories of components/runtime_manager: the calls of other components, the expiries of the timers,
-- and the steps of the workers, in any order.
use mathlib.Core.Path.{subst}
use minimal_watch_firmware_e.Base.{
  ℕ, ◌≡◌, refl, ◌<◌, ◌⊎◌, Bool, true, false, Option, none, some, List, [], ◌∷◌, arith, inl, inr,
  Bool-cases, if◌then◌else◌, some_inj, ◌>>=◌, >>=-eq-some,
}
use minimal_watch_firmware_e.Runtime.{
  RuntimeState, sleep, ui_active, background_active, grace_period, is_active_state, Env, Runtime,
}
use minimal_watch_firmware_e.Runtime.Platform.{Os, Laws, WorkItem, is_active, stop}
use minimal_watch_firmware_e.Runtime.Window.{
  evaluate_early_curfew, start_work_cb, work_window_expiry_cb, grace_period_expiry_cb,
  curfew_settlement_expiry_cb, set_active_state,
}
use minimal_watch_firmware_e.Runtime.Tasks.{worker_step, soft_abort, hard_abort}
use minimal_watch_firmware_e.Runtime.Calls.{
  schedule_user_work, schedule_system_work, register_hook, unregister_hook,
}
use minimal_watch_firmware_e.Runtime.Valid.{TimedAs, IsValid}
use minimal_watch_firmware_e.Runtime.Sleep.{Reaches}
use minimal_watch_firmware_e.Runtime.Settle.{settlement_stopped, evaluate-Reaches}
use minimal_watch_firmware_e.Runtime.Curfew.{Rests, window_expires, grace_expires}
use minimal_watch_firmware_e.Runtime.Returns.{
  registered-IsValid, unregistered-IsValid, set_active-IsValid, ended, settlement-Reaches,
  window_over-IsReady, grace_over-IsReady, tick-Reaches,
}
use minimal_watch_firmware_e.Runtime.Keeps.{
  reached, worker_step-IsValid, soft_abort-IsValid, hard_abort-IsValid,
}
use minimal_watch_firmware_e.Runtime.Schedule.{schedule_answers}

pub data Call : Type 0 where
  tick window_ends grace_ends settlement_ends evaluates : Call
  schedules_user schedules_system : WorkItem → Call
  registers unregisters : ℕ → Call
  sets_active : Bool → Call
  works soft_ends hard_ends : ℕ → Call

module _ (os : Os) where
  -- A timer that expires no longer runs.
  abbrev pub window_over : Runtime os → Runtime os
  window_over r = record r { total_window_timer = stop os r.total_window_timer }

  abbrev pub grace_over : Runtime os → Runtime os
  grace_over r = record r { grace_period_timer = stop os r.grace_period_timer }

  abbrev pub settlement_over : Runtime os → Runtime os
  settlement_over r = record r { curfew_settlement_timer = stop os r.curfew_settlement_timer }

  abbrev pub second : Option (Bool × Runtime os) → Option (Runtime os)
  second o = do d ← o; some d.1

  -- `none` is also a timer that does not run, and a worker that waits.
  unfoldable pub step : Env → Call → Runtime os → Option (Runtime os)
  step e tick r = start_work_cb os e r
  step e window_ends r =
      if is_active os r.total_window_timer then work_window_expiry_cb os e (window_over r) else none
  step e grace_ends r =
      if is_active os r.grace_period_timer then grace_period_expiry_cb os e (grace_over r) else none
  step e settlement_ends r =
      if is_active os r.curfew_settlement_timer
      then curfew_settlement_expiry_cb os e (settlement_over r)
      else none
  step e evaluates r = evaluate_early_curfew os e r
  step e (schedules_user x) r = second (schedule_user_work os e (some x) r)
  step e (schedules_system x) r = second (schedule_system_work os e (some x) r)
  step e (registers h) r = some (register_hook os e h r).1
  step e (unregisters h) r = some (unregister_hook os e h r).1
  step e (sets_active ui) r = some (set_active_state os ui r)
  step e (works i) r = worker_step os e i r
  step e (soft_ends i) r = soft_abort os e i r
  step e (hard_ends i) r = hard_abort os e i r

  unfoldable pub run : List (Env × Call) → Runtime os → Option (Runtime os)
  run [] r = some r
  run ((e, c) ∷ l) r = do r' ← step e c r; run l r'

-- The clock runs when a window opens, and the callbacks of the total and the grace timer have the
-- lock in time.
abbrev pub IsFair : Env → Call → Type 0
IsFair e tick = 0 < e.now
IsFair e window_ends = e.locked ≡ true
IsFair e grace_ends = e.locked ≡ true
IsFair e settlement_ends = Unit {0}
IsFair e evaluates = Unit {0}
IsFair e (schedules_user x) = Unit {0}
IsFair e (schedules_system x) = Unit {0}
IsFair e (registers h) = Unit {0}
IsFair e (unregisters h) = Unit {0}
IsFair e (sets_active ui) = Unit {0}
IsFair e (works i) = Unit {0}
IsFair e (soft_ends i) = Unit {0}
IsFair e (hard_ends i) = Unit {0}

abbrev pub AllFair : List (Env × Call) → Type 0
AllFair [] = Unit {0}
AllFair ((e, c) ∷ l) = IsFair e c × AllFair l

module _ {os : Os} (laws : Laws os) where
  -- Whether a call is the manager's own, and its timer, if it has one, runs.
  abbrev pub manages : Call → Runtime os → Bool
  manages window_ends r = is_active os r.total_window_timer
  manages grace_ends r = is_active os r.grace_period_timer
  manages settlement_ends r = is_active os r.curfew_settlement_timer
  manages (works i) r = false
  manages (soft_ends i) r = false
  manages (hard_ends i) r = false
  manages tick r = true
  manages evaluates r = true
  manages (schedules_user x) r = true
  manages (schedules_system x) r = true
  manages (registers h) r = true
  manages (unregisters h) r = true
  manages (sets_active ui) r = true

  -- Which state a timer runs in.
  total-window :
      (s : RuntimeState) (t g a : Bool) → TimedAs s t g a → t ≡ true → is_active_state s ≡ true
  total-window s t g a v on = ground arith

  grace-period : (s : RuntimeState) (t g a : Bool) → TimedAs s t g a → g ≡ true → s ≡ grace_period
  grace-period sleep t g a v on = cc
  grace-period background_active t g a v on = cc
  grace-period ui_active t g a v on = cc
  grace-period grace_period t g a v on = refl

  window-total :
      (s : RuntimeState) (t g a : Bool) → TimedAs s t g a → is_active_state s ≡ true → t ≡ true
  window-total s t g a v on = ground arith

  period-grace : (s : RuntimeState) (t g a : Bool) → TimedAs s t g a → s ≡ grace_period → g ≡ true
  period-grace s t g a v on =
      let w : TimedAs grace_period t g a = subst (λ (s : RuntimeState). TimedAs s t g a) on v in w.1

  -- From a valid state each call of the manager returns and leads to a valid state: a work tick while
  -- the clock is above 0, the expiry of a timer that runs (of the window's and the grace period's,
  -- when the callback has the lock in time), `runtime_manager_evaluate_early_curfew`, the calls that
  -- schedule user and system work, those that register and unregister a hook, and
  -- `runtime_manager_set_active_state`.
  pub manager_returns :
      (e : Env) (c : Call) (r : Runtime os)
      → IsFair e c
      → IsValid laws r
      → manages c r ≡ true
      → Reaches laws (step os e c r)
  unfolding step
  manager_returns e tick r f v m = tick-Reaches laws e r v f
  manager_returns e window_ends r f v m =
      let w =
        window_expires laws e (window_over os r) f (window_over-IsReady laws r v.ready)
          (total-window r.state _ _ _ v.timed m) in
      let (r', ran, v') = ended laws (window_over os r) w in (r', simp m ran, v')
  manager_returns e grace_ends r f v m =
      let (r', ran, s, _) =
        grace_expires laws e (grace_over os r) f (grace_over-IsReady laws r v.ready)
          (grace-period r.state _ _ _ v.timed m) in
      (r', simp m ran, s.0)
  manager_returns e settlement_ends r f v m =
      let (r', ran, v') =
        settlement-Reaches laws e (settlement_over os r) (settlement_stopped laws r v) in
      (r', simp m ran, v')
  manager_returns e evaluates r f v m = evaluate-Reaches laws r v e
  manager_returns e (schedules_user x) r f v m =
      let (d, ran, a, v') = (schedule_answers laws e r v (some x)).0 in (d.1, simp ran, v')
  manager_returns e (schedules_system x) r f v m =
      let (d, ran, a, v') = (schedule_answers laws e r v (some x)).1 in (d.1, simp ran, v')
  manager_returns e (registers h) r f v m = (_, refl, registered-IsValid laws e h r v)
  manager_returns e (unregisters h) r f v m = (_, refl, unregistered-IsValid laws e h r v)
  manager_returns e (sets_active ui) r f v m = (_, refl, set_active-IsValid laws ui r v)
  manager_returns e (works i) r f v m = cc
  manager_returns e (soft_ends i) r f v m = cc
  manager_returns e (hard_ends i) r f v m = cc

  -- A step that was made, of the manager or of a worker.
  step-IsValid :
      (e : Env) (c : Call) (r : Runtime os) {r' : Runtime os}
      → IsFair e c
      → IsValid laws r
      → step os e c r ≡ some r'
      → IsValid laws r'
  step-IsValid e (works i) r f v s = unfold step in worker_step-IsValid laws e i r v s
  step-IsValid e (soft_ends i) r f v s = unfold step in soft_abort-IsValid laws e i r v s
  step-IsValid e (hard_ends i) r f v s = unfold step in hard_abort-IsValid laws e i r v s
  step-IsValid e c r f v s = elim (Bool-cases (manages c r)) [
    | inl m ↦ reached laws (manager_returns e c r f v m) s
    | inr n ↦ absurd (unfold step in ground arith)
  ]

  -- From a valid state every history of fair steps that the code takes leads to a valid state.
  pub run-IsValid :
      (l : List (Env × Call)) (r : Runtime os) {r' : Runtime os}
      → AllFair l
      → IsValid laws r
      → run os l r ≡ some r'
      → IsValid laws r'
  unfolding run
  run-IsValid [] r f v s = subst (λ (t : Runtime os). IsValid laws t) (some_inj s) v
  run-IsValid ((e, c) ∷ l) r f v s =
      let (r1, first, rest) = >>=-eq-some (step os e c r) _ s in
      run-IsValid l r1 f.1 (step-IsValid e c r f.0 v first) rest

  abbrev pub RestsAfter : List (Env × Call) → Runtime os → Type 0
  RestsAfter l r = (r' : Runtime os) × (run os l r ≡ some r') × Rests laws r'

  -- From a valid state in a window, with the lock had in time by both callbacks: the expiry of the
  -- window's timer, or that and then the expiry of the grace period's timer, are steps that are made
  -- and lead to a valid state of sleep in which no worker works.
  pub window_rests :
      (e1 e2 : Env) (r : Runtime os)
      → e1.locked ≡ true
      → e2.locked ≡ true
      → IsValid laws r
      → is_active_state r.state ≡ true
      → RestsAfter ((e1, window_ends) ∷ []) r
        ⊎ RestsAfter ((e1, window_ends) ∷ (e2, grace_ends) ∷ []) r
  unfolding run step
  window_rests e1 e2 r l1 l2 v a =
      let on = window-total r.state _ _ _ v.timed a in
      let (r1, ran, ends) =
        window_expires laws e1 (window_over os r) l1 (window_over-IsReady laws r v.ready) a in
      elim ends [
        | inr s ↦ inl (r1, simp (on, ran), s)
        | inl (v1, g, _) ↦
            let on1 = period-grace r1.state _ _ _ v1.timed g in
            let (r2, ran2, s, _) =
              grace_expires laws e2 (grace_over os r1) l2 (grace_over-IsReady laws r1 v1.ready) g in
            inr (r2, simp (on, ran, on1, ran2), s)
      ]
