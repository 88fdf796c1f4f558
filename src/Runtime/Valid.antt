-- ===== src/Runtime/Valid.antt =====
-- What holds of components/runtime_manager/src/runtime_manager.c between its calls once it was
-- initialized.
use minimal_watch_firmware_e.Base.{
  ℕ, ◌≡◌, refl, ◌≤◌, Bool, true, false, Option, none, some, List, [],
}
use minimal_watch_firmware_e.Runtime.{
  RuntimeState, sleep, background_active, grace_period, ui_active, same_state, is_active_state,
  max_curfew_hooks, Runtime,
}
use minimal_watch_firmware_e.Runtime.Platform.{Os, Laws, WorkItem, is_active, stop, start_once}
use minimal_watch_firmware_e.Runtime.Drain.{filled}
use minimal_watch_firmware_e.Runtime.Count.{IsCounted, NoneWorks}

-- Which of the three timers run in which state: total, grace and settlement timer.
abbrev pub TimedAs : RuntimeState → (total grace settlement : Bool) → Type 0
TimedAs sleep t g s = (t ≡ false) × (g ≡ false) × (s ≡ false)
TimedAs background_active t g s = (t ≡ true) × (g ≡ false)
TimedAs ui_active t g s = (t ≡ true) × (g ≡ false)
TimedAs grace_period t g s = (t ≡ false) × (g ≡ true)

module _ (os : Os) where
  -- The queues and timers exist, the next window has a state of its own, the watchdog
  -- has the workers, and these are counted.
  pub record IsReady (r : Runtime os) : Type 0 where
    pub user : (q : os.Queue) × (r.user_work ≡ some q)
    pub system : (q : os.Queue) × (r.system_work ≡ some q)
    pub pending_user : (q : os.Queue) × (r.pending_user_work ≡ some q)
    pub pending_system : (q : os.Queue) × (r.pending_system_work ≡ some q)
    pub total : (t : os.Timer) × (r.total_window_timer ≡ some t)
    pub grace : (t : os.Timer) × (r.grace_period_timer ≡ some t)
    pub settlement : (t : os.Timer) × (r.curfew_settlement_timer ≡ some t)
    pub hooks : r.active_hook_count ≤ max_curfew_hooks
    pub works : is_active_state r.work_state ≡ true
    pub watched : r.pool.watched ≡ true
    pub counted : IsCounted os r.pool

  abbrev pub IsTimed : Runtime os → Type 0
  IsTimed r =
      TimedAs r.state (is_active os r.total_window_timer) (is_active os r.grace_period_timer)
        (is_active os r.curfew_settlement_timer)

module _ {os : Os} (laws : Laws os) where
  abbrev pub IsEmpty : Option os.Queue → Type 0
  IsEmpty none = Unit {0}
  IsEmpty (some q) = laws.items q ≡ []

  pub record IsValid (r : Runtime os) : Type 0 where
    pub ready : IsReady os r
    pub timed : IsTimed os r
    -- Work is pending in a grace period only.
    pub quiet_user : same_state r.state grace_period ≡ false → IsEmpty r.pending_user_work
    pub quiet_system : same_state r.state grace_period ≡ false → IsEmpty r.pending_system_work

  pub stop_lem : (t : Option os.Timer) → is_active os (stop os t) ≡ false
  stop_lem none = refl
  stop_lem (some t) = laws.active-stop t

  pub start_lem :
      (now d : ℕ) (t : Option os.Timer) (u : os.Timer)
      → t ≡ some u
      → is_active os (start_once os now d t) ≡ true
  start_lem now d t u e = rw e (laws.active-start now d u)

  -- What a queue that may be NULL holds.
  abbrev pub held_items : Option os.Queue → List WorkItem
  held_items none = []
  held_items (some q) = laws.items q

  abbrev pub room : Option os.Queue → ℕ
  room none = 0
  room (some q) = laws.capacity q

  -- The state after `fall_asleep`: no timer runs, no worker is in a handler, and the pending work
  -- follows the other, in order and as far as it fits.
  pub record IsAsleep (r r' : Runtime os) : Type 0 where
    pub ready : IsReady os r'
    pub state : r'.state ≡ sleep
    pub stopped :
        TimedAs sleep
          (is_active os r'.total_window_timer)
          (is_active os r'.grace_period_timer)
          (is_active os r'.curfew_settlement_timer)
    pub idle : NoneWorks os r'.pool.workers
    pub quiet_user : IsEmpty r'.pending_user_work
    pub quiet_system : IsEmpty r'.pending_system_work
    pub moved_user :
        held_items r'.user_work
        ≡ filled (room r.user_work) (held_items r.user_work) (held_items r.pending_user_work)
    pub moved_system :
        held_items r'.system_work
        ≡ filled (room r.system_work) (held_items r.system_work) (held_items r.pending_system_work)
