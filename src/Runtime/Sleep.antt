-- ===== src/Runtime/Sleep.antt =====
-- How a window of components/runtime_manager/src/runtime_manager.c ends in sleep.
use mathlib.Core.Path.{subst}
use minimal_watch_firmware_e.Base.{ℕ, ◌≡◌, refl, ap, sym, ◌∙◌, Bool, true, false, Option, some}
use minimal_watch_firmware_e.Runtime.{RuntimeState, sleep, same_state, Env, Runtime}
use minimal_watch_firmware_e.Runtime.Platform.{Os, Laws, is_active, stop}
use minimal_watch_firmware_e.Runtime.Workers.{
  Pool, suspend_all, abort_loop, force_all_mandatory_abort,
}
use minimal_watch_firmware_e.Runtime.Window.{asleep, fall_asleep, set_runtime_state}
use minimal_watch_firmware_e.Runtime.Drain.{filled, drain_pending_queue-Drained}
use minimal_watch_firmware_e.Runtime.Count.{
  mandatory_abort-IsCounted, suspend_all-IsCounted, suspend_all-NoneWorks,
}
use minimal_watch_firmware_e.Runtime.Valid.{
  TimedAs, IsReady, IsValid, IsAsleep, held_items, room, stop_lem,
}

mandatory_returns :
    (os : Os) (created : ℕ → Bool) (p : Pool os)
    → p.watched ≡ true
    → (p' : Pool os) × (force_all_mandatory_abort os created p ≡ some p') × (p'.watched ≡ true)
unfolding force_all_mandatory_abort
mandatory_returns os created p h =
    let l = abort_loop os created p.workers p.active_workers in
    (record p { workers = l.0; active_workers = l.1 }, rw h refl, h)

suspend_watched : (os : Os) (p : Pool os) → (suspend_all os p).watched ≡ p.watched
unfolding suspend_all
suspend_watched os p = refl

module _ {os : Os} (laws : Laws os) where
  fall_asleep-IsAsleep :
      (e : Env) (r : Runtime os)
      → IsReady os r
      → (r' : Runtime os) × (fall_asleep os e r ≡ some r') × IsAsleep laws r r'
  unfolding fall_asleep
  fall_asleep-IsAsleep e r v =
      let (pu, at_pu) = v.pending_user in
      let (u, at_u) = v.user in
      let (ps, at_ps) = v.pending_system in
      let (s, at_s) = v.system in
      let (du, ran_u, (gone_u, all_u, _, _)) =
        drain_pending_queue-Drained os laws r.pending_user_work r.user_work pu u at_pu at_u in
      let (ds, ran_s, (gone_s, all_s, _, _)) =
        drain_pending_queue-Drained os laws r.pending_system_work r.system_work ps s at_ps at_s in
      let (p, aborted, watched) = mandatory_returns os e.spawned r.pool v.watched in
      let (counted, idle) = mandatory_abort-IsCounted os e.spawned r.pool p v.counted aborted in
      (
        asleep os r (some du.0, some du.1) (some ds.0, some ds.1) p,
        rw (ran_u, ran_s, aborted) refl,
        record {
          ready = record {
            user = (du.1, refl);
            system = (ds.1, refl);
            pending_user = (du.0, refl);
            pending_system = (ds.0, refl);
            total = (os.stop v.total.0, ap (stop os) v.total.1);
            grace = (os.stop v.grace.0, ap (stop os) v.grace.1);
            settlement = (os.stop v.settlement.0, ap (stop os) v.settlement.1);
            hooks = v.hooks;
            works = v.works;
            watched = suspend_watched os p ∙ watched;
            counted = suspend_all-IsCounted os p counted;
          };
          state = refl;
          stopped = (
            stop_lem laws r.total_window_timer,
            stop_lem laws r.grace_period_timer,
            stop_lem laws r.curfew_settlement_timer,
          );
          idle = suspend_all-NoneWorks os p idle;
          quiet_user = gone_u;
          quiet_system = gone_s;
          moved_user = all_u ∙ (λ i.
              filled (room laws (sym at_u i)) (held_items laws (sym at_u i))
                (held_items laws (sym at_pu i)));
          moved_system = all_s ∙ (λ i.
              filled (room laws (sym at_s i)) (held_items laws (sym at_s i))
                (held_items laws (sym at_ps i)));
        },
      )

  -- Of a ready manager that does not sleep, with the lock had, `set_runtime_state` to sleep returns;
  -- the manager is ready and sleeps, no timer runs, no worker works, no work is pending, and each of
  -- the two work queues holds what it held and then what was pending for it, in order and up to its
  -- capacity.
  pub sleeps :
      (e : Env) (r : Runtime os)
      → e.locked ≡ true
      → IsReady os r
      → same_state r.state sleep ≡ false
      → (r' : Runtime os) × (set_runtime_state os e sleep r ≡ some r') × IsAsleep laws r r'
  unfolding set_runtime_state
  sleeps e r l v awake =
      let (r', slept, a) = fall_asleep-IsAsleep e r v in (r', simp (l, awake) slept, a)

  abbrev pub Reaches : Option (Runtime os) → Type 0
  Reaches o = (r' : Runtime os) × (o ≡ some r') × IsValid laws r'

  pub IsAsleep-IsValid : {r r' : Runtime os} → IsAsleep laws r r' → IsValid laws r'
  IsAsleep-IsValid {r'} a = record {
    ready = a.ready;
    timed =
        subst
          (λ (s : RuntimeState).
            TimedAs s (is_active os r'.total_window_timer) (is_active os r'.grace_period_timer)
              (is_active os r'.curfew_settlement_timer))
          (sym a.state) a.stopped;
    quiet_user = λ _. a.quiet_user;
    quiet_system = λ _. a.quiet_system;
  }
