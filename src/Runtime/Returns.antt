-- ===== src/Runtime/Returns.antt =====
-- Single calls of components/runtime_manager keep what holds of its state, and return.
use mathlib.Core.Path.{subst}
use minimal_watch_firmware_e.Base.{
  ℕ, ◌≡◌, refl, ap, sym, ◌≤◌, ◌<◌, ◌⊎◌, Bool, Option, some, arith, inl, inr, Bool-cases,
}
use minimal_watch_firmware_e.Runtime.{
  max_curfew_hooks, grace_period, same_state, is_active_state, Env, Runtime,
}
use minimal_watch_firmware_e.Runtime.Platform.{Os, Laws, stop}
use minimal_watch_firmware_e.Runtime.Window.{
  held, start_work_cb, curfew_settlement_expiry_cb, set_active_state,
}
use minimal_watch_firmware_e.Runtime.Calls.{register_hook, unregister_hook}
use minimal_watch_firmware_e.Runtime.Valid.{IsReady, IsValid}
use minimal_watch_firmware_e.Runtime.Sleep.{Reaches, sleeps, IsAsleep-IsValid}
use minimal_watch_firmware_e.Runtime.Settle.{
  has_work_returns, set_active-Reaches, active-awake, grace-awake,
}
use minimal_watch_firmware_e.Runtime.Curfew.{IsGraced, Rests, curfew_ends}

module _ {os : Os} (laws : Laws os) where
  with_hooks :
      (r : Runtime os) (f : ℕ → ℕ) (n : ℕ) {r' : Runtime os}
      → IsValid laws r
      → n ≤ max_curfew_hooks
      → r' ≡ record r { window_hooks = f; active_hook_count = n }
      → IsValid laws r'
  with_hooks r f n v few e =
      subst (λ (s : Runtime os). IsValid laws s) (sym e)
        (record {
          ready = record {
            user = v.ready.user;
            system = v.ready.system;
            pending_user = v.ready.pending_user;
            pending_system = v.ready.pending_system;
            total = v.ready.total;
            grace = v.ready.grace;
            settlement = v.ready.settlement;
            hooks = few;
            works = v.ready.works;
            watched = v.ready.watched;
            counted = v.ready.counted;
          };
          timed = v.timed;
          quiet_user = v.quiet_user;
          quiet_system = v.quiet_system;
        })

  pub registered-IsValid :
      (e : Env) (h : ℕ) (r : Runtime os) → IsValid laws r → IsValid laws (register_hook os e h r).1
  unfolding register_hook
  registered-IsValid e h r v =
      let few = v.ready.hooks in
      with_hooks r (register_hook os e h r).1.window_hooks
        (register_hook os e h r).1.active_hook_count v (ground arith) (ground arith)

  pub unregistered-IsValid :
      (e : Env) (h : ℕ) (r : Runtime os)
      → IsValid laws r
      → IsValid laws (unregister_hook os e h r).1
  unfolding unregister_hook
  unregistered-IsValid e h r v =
      let few = v.ready.hooks in
      with_hooks r (unregister_hook os e h r).1.window_hooks
        (unregister_hook os e h r).1.active_hook_count v (ground arith) (ground arith)

  pub set_active-IsValid :
      (ui : Bool) (r : Runtime os) → IsValid laws r → IsValid laws (set_active_state os ui r)
  unfolding set_active_state
  set_active-IsValid ui r v = record {
    ready = record {
      user = v.ready.user;
      system = v.ready.system;
      pending_user = v.ready.pending_user;
      pending_system = v.ready.pending_system;
      total = v.ready.total;
      grace = v.ready.grace;
      settlement = v.ready.settlement;
      hooks = v.ready.hooks;
      works = ground arith;
      watched = v.ready.watched;
      counted = v.ready.counted;
    };
    timed = v.timed;
    quiet_user = v.quiet_user;
    quiet_system = v.quiet_system;
  }

  pub ended :
      (r : Runtime os) {o : Option (Runtime os)}
      → (r' : Runtime os) × (o ≡ some r') × (IsGraced laws r r' ⊎ Rests laws r')
      → Reaches laws o
  ended r (r', ran, inl g) = (r', ran, g.0)
  ended r (r', ran, inr s) = (r', ran, s.0)

  pub settlement-Reaches :
      (e : Env) (r : Runtime os)
      → IsValid laws r
      → Reaches laws (curfew_settlement_expiry_cb os e r)
  unfolding curfew_settlement_expiry_cb
  settlement-Reaches e r v =
      let (b, known) = has_work_returns laws r v.ready in
      elim (Bool-cases e.locked) [
        | inr l ↦ (r, simp l, v)
        | inl l ↦ elim (Bool-cases (is_active_state r.state)) [
          | inl a ↦ elim (Bool-cases b) [
            | inl busy ↦ (r, simp (l, a, known, busy), v)
            | inr idle ↦
                let (r', ran, v') =
                  ended r (curfew_ends laws r v.ready e (active-awake r.state a)) in
                (r', simp (l, a, known, idle) ran, v')
          ]
          | inr a ↦ elim (Bool-cases (same_state r.state grace_period)) [
            | inr g ↦ (r, simp (l, a, g), v)
            | inl g ↦ elim (Bool-cases b) [
              | inl busy ↦ (r, simp (l, a, g, known, busy), v)
              | inr idle ↦
                  let (r', ran, s) = sleeps laws (held e) r refl v.ready (grace-awake r.state g) in
                  (r', simp (l, a, g, known, idle) ran, IsAsleep-IsValid laws s)
            ]
          ]
        ]
      ]

  -- The state once a timer has expired, for its callback.
  pub window_over-IsReady :
      (r : Runtime os)
      → IsReady os r
      → IsReady os (record r { total_window_timer = stop os r.total_window_timer })
  window_over-IsReady r v = record {
    user = v.user;
    system = v.system;
    pending_user = v.pending_user;
    pending_system = v.pending_system;
    total = (_, ap (stop os) v.total.1);
    grace = v.grace;
    settlement = v.settlement;
    hooks = v.hooks;
    works = v.works;
    watched = v.watched;
    counted = v.counted;
  }

  pub grace_over-IsReady :
      (r : Runtime os)
      → IsReady os r
      → IsReady os (record r { grace_period_timer = stop os r.grace_period_timer })
  grace_over-IsReady r v = record {
    user = v.user;
    system = v.system;
    pending_user = v.pending_user;
    pending_system = v.pending_system;
    total = v.total;
    grace = (_, ap (stop os) v.grace.1);
    settlement = v.settlement;
    hooks = v.hooks;
    works = v.works;
    watched = v.watched;
    counted = v.counted;
  }

  -- `start_work_cb`
  pub tick-Reaches :
      (e : Env) (r : Runtime os) → IsValid laws r → 0 < e.now → Reaches laws (start_work_cb os e r)
  unfolding start_work_cb
  tick-Reaches e r v t = elim (Bool-cases r.initialized) [
    | inl on ↦
        let (r', ran, v') = set_active-Reaches laws r v e r.work_state v.ready.works t in
        (r', simp on ran, v')
    | inr off ↦ (r, simp off, v)
  ]
