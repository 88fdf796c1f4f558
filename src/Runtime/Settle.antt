-- ===== src/Runtime/Settle.antt =====
-- The settlement timer of components/runtime_manager/src/runtime_manager.c, and how a window opens.
use minimal_watch_firmware_e.Base.{
  ℕ, ◌+◌, ◌*◌, ◌≡◌, refl, ap, ◌∙◌, ◌<◌, Bool, true, false, ◌||◌, Option, some, arith, inl, inr,
  Bool-cases, ltb, ◌==◌,
}
use minimal_watch_firmware_e.Wakelock.{positive}
use minimal_watch_firmware_e.Runtime.{
  RuntimeState, sleep, background_active, grace_period, ui_active, same_state, is_active_state,
  window_grace_period_ms, Env, Runtime,
}
use minimal_watch_firmware_e.Runtime.Platform.{Os, Laws, is_active, stop, start_once}
use minimal_watch_firmware_e.Runtime.Workers.{Pool, resume_all}
use minimal_watch_firmware_e.Runtime.Window.{
  held, window_max_ms, has_work, settle, settle_idle, evaluate_early_curfew, open_window,
  set_runtime_state, reset_settlement_timer,
}
use minimal_watch_firmware_e.Runtime.Count.{resume_all-IsCounted}
use minimal_watch_firmware_e.Runtime.Valid.{TimedAs, IsReady, IsValid, stop_lem, start_lem}
use minimal_watch_firmware_e.Runtime.Sleep.{Reaches}

-- Awake, the settlement timer may run or not.
TimedAs_free :
    (s : RuntimeState) (t g a b : Bool)
    → same_state s sleep ≡ false
    → TimedAs s t g a
    → TimedAs s t g b
TimedAs_free sleep t g a b n h = cc
TimedAs_free background_active t g a b n h = h
TimedAs_free ui_active t g a b n h = h
TimedAs_free grace_period t g a b n h = h

pub active-awake : (s : RuntimeState) → is_active_state s ≡ true → same_state s sleep ≡ false
active-awake s h = ground arith

pub grace-awake : (s : RuntimeState) → same_state s grace_period ≡ true → same_state s sleep ≡ false
grace-awake s h = ground arith

TimedAs_stopped :
    (s : RuntimeState) (t g a b : Bool) → b ≡ false → TimedAs s t g a → TimedAs s t g b
TimedAs_stopped sleep t g a b e h = (h.0, h.1, e)
TimedAs_stopped background_active t g a b e h = h
TimedAs_stopped ui_active t g a b e h = h
TimedAs_stopped grace_period t g a b e h = h

TimedAs_opened :
    (s : RuntimeState) (t g a : Bool)
    → is_active_state s ≡ true
    → t ≡ true
    → g ≡ false
    → TimedAs s t g a
TimedAs_opened sleep t g a h on off = cc
TimedAs_opened background_active t g a h on off = (on, off)
TimedAs_opened ui_active t g a h on off = (on, off)
TimedAs_opened grace_period t g a h on off = cc

grace_off :
    (s : RuntimeState) (t g a : Bool) → same_state s sleep ≡ true → TimedAs s t g a → g ≡ false
grace_off s t g a h timed = ground arith

asleep-quiet : (s : RuntimeState) → same_state s sleep ≡ true → same_state s grace_period ≡ false
asleep-quiet s h = ground arith

later : (n : ℕ) → 0 < n → (n == 0) ≡ false
later n h = ground arith

module _ {os : Os} (laws : Laws os) where
  resume_watched : (p : Pool os) → (resume_all os p).watched ≡ p.watched
  unfolding resume_all
  resume_watched p = refl

  pub has_work_returns : (r : Runtime os) → IsReady os r → (b : Bool) × (has_work os r ≡ some b)
  unfolding has_work
  has_work_returns r v =
      let (u, at_u) = v.user in
      let (s, at_s) = v.system in
      (
        positive r.pool.active_workers || (ltb 0 (os.waiting s) || ltb 0 (os.waiting u)),
        simp (at_u, at_s),
      )

  module _ (r : Runtime os) (v : IsValid laws r) where
    with_settlement :
        (x : Option os.Timer)
        → (t : os.Timer) × (x ≡ some t)
        → same_state r.state sleep ≡ false
        → IsValid laws (record r { curfew_settlement_timer = x })
    with_settlement x at awake = record {
      ready = record {
        user = v.ready.user;
        system = v.ready.system;
        pending_user = v.ready.pending_user;
        pending_system = v.ready.pending_system;
        total = v.ready.total;
        grace = v.ready.grace;
        settlement = at;
        hooks = v.ready.hooks;
        works = v.ready.works;
        watched = v.ready.watched;
        counted = v.ready.counted;
      };
      timed = TimedAs_free r.state _ _ _ _ awake v.timed;
      quiet_user = v.quiet_user;
      quiet_system = v.quiet_system;
    }

    settle-IsValid :
        (e : Env) (start limit : ℕ)
        → same_state r.state sleep ≡ false
        → IsValid laws (settle os e start limit r)
    settle-IsValid e start limit awake =
        elim (Bool-cases (is_active os r.curfew_settlement_timer)) [
          | inl on ↦ rw on v
          | inr off ↦ elim (Bool-cases (ltb e.now (start + limit * 1000))) [
            | inl left ↦
                rw (off, left)
                  (with_settlement _ (_, ap (start_once os e.now _) v.ready.settlement.1) awake)
            | inr over ↦ rw (off, over) v
          ]
        ]

    settle_idle-Reaches :
        (e : Env) (start limit : ℕ)
        → same_state r.state sleep ≡ false
        → Reaches laws (settle_idle os e start limit r)
    settle_idle-Reaches e start limit awake =
        let (b, known) = has_work_returns r v.ready in
        elim (Bool-cases b) [
          | inl busy ↦ (r, rw (known, busy) refl, v)
          | inr idle ↦
              (settle os e start limit r, rw (known, idle) refl, settle-IsValid e start limit awake)
        ]

    -- `runtime_manager_evaluate_early_curfew`
    pub evaluate-Reaches : (e : Env) → Reaches laws (evaluate_early_curfew os e r)
    unfolding evaluate_early_curfew
    evaluate-Reaches e = elim (Bool-cases e.locked) [
      | inr l ↦ (r, simp l, v)
      | inl l ↦ elim (Bool-cases (is_active_state r.state)) [
        | inl a ↦
            let (r', ran, v') =
              settle_idle-Reaches e r.window_start_time (window_max_ms r.state)
                (active-awake r.state a) in
            (r', simp (l, a) ran, v')
        | inr a ↦ elim (Bool-cases (same_state r.state grace_period)) [
          | inl g ↦
              let (r', ran, v') =
                settle_idle-Reaches e r.grace_start_time window_grace_period_ms
                  (grace-awake r.state g) in
              (r', simp (l, a, g) ran, v')
          | inr g ↦ (r, simp (l, a, g), v)
        ]
      ]
    ]

    -- The settlement timer is stopped, or has expired.
    pub settlement_stopped :
        IsValid laws (record r { curfew_settlement_timer = stop os r.curfew_settlement_timer })
    settlement_stopped = record {
      ready = record {
        user = v.ready.user;
        system = v.ready.system;
        pending_user = v.ready.pending_user;
        pending_system = v.ready.pending_system;
        total = v.ready.total;
        grace = v.ready.grace;
        settlement = (_, ap (stop os) v.ready.settlement.1);
        hooks = v.ready.hooks;
        works = v.ready.works;
        watched = v.ready.watched;
        counted = v.ready.counted;
      };
      timed = TimedAs_stopped r.state _ _ _ _ (stop_lem laws r.curfew_settlement_timer) v.timed;
      quiet_user = v.quiet_user;
      quiet_system = v.quiet_system;
    }

    -- `runtime_manager_reset_settlement_timer`
    pub reset-Reaches : (e : Env) → Reaches laws (reset_settlement_timer os e r)
    unfolding reset_settlement_timer
    reset-Reaches e = elim (Bool-cases e.locked) [
      | inr l ↦ (r, simp l, v)
      | inl l ↦ (
        record r { curfew_settlement_timer = stop os r.curfew_settlement_timer },
        simp l,
        settlement_stopped,
      )
    ]

    opened : Env → RuntimeState → Runtime os
    opened e target = record r {
      state = target;
      window_start_time = e.now;
      total_window_timer = start_once os e.now (window_max_ms target * 1000) r.total_window_timer;
      pool = resume_all os r.pool;
    }

    opened-IsValid :
        (e : Env) (target : RuntimeState)
        → is_active_state target ≡ true
        → same_state r.state sleep ≡ true
        → IsValid laws (opened e target)
    unfolding opened
    opened-IsValid e target a s = record {
      ready = record {
        user = v.ready.user;
        system = v.ready.system;
        pending_user = v.ready.pending_user;
        pending_system = v.ready.pending_system;
        total = (_, ap (start_once os e.now _) v.ready.total.1);
        grace = v.ready.grace;
        settlement = v.ready.settlement;
        hooks = v.ready.hooks;
        works = v.ready.works;
        watched = resume_watched r.pool ∙ v.ready.watched;
        counted = resume_all-IsCounted os r.pool v.ready.counted;
      };
      timed =
          TimedAs_opened target _ _ _ a
            (start_lem laws e.now _ r.total_window_timer v.ready.total.0 v.ready.total.1)
            (grace_off r.state _ _ _ s v.timed);
      quiet_user = λ _. v.quiet_user (asleep-quiet r.state s);
      quiet_system = λ _. v.quiet_system (asleep-quiet r.state s);
    }

  -- `set_runtime_state` to a window.
  pub set_active-Reaches :
      (r : Runtime os) (v : IsValid laws r) (e : Env) (target : RuntimeState)
      → is_active_state target ≡ true
      → 0 < e.now
      → Reaches laws (set_runtime_state os e target r)
  unfolding set_runtime_state open_window opened
  set_active-Reaches r v e target a t = elim (Bool-cases e.locked) [
    | inr l ↦ (r, simp l, v)
    | inl l ↦ elim (Bool-cases (same_state r.state target)) [
      | inl same ↦ (r, simp (l, same), v)
      | inr other ↦ elim (Bool-cases (same_state r.state sleep)) [
        | inr awake ↦ (r, simp (l, other, a, awake), v)
        | inl s ↦
            let (r', ran, v') =
              evaluate-Reaches (opened r v e target) (opened-IsValid r v e target a s) (held e) in
            (r', simp (l, other, a, s, later e.now t) ran, v')
      ]
    ]
  ]
