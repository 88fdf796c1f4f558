-- ===== src/Alarms/Timer.antt =====
-- `alarm_manager_revalidate` and `alarm_fired_cb`: which alarms go, and what the timer is set for.
use minimal_watch_firmware_e.Base.{
  remove_at, ℕ, zero, suc, ◌+◌, ◌-◌, ◌*◌, ◌≡◌, ◌∙◌, refl, sym, ap, ap₂, inl, inr, true, false, not,
  ◌||◌, Option, none, some, some_inj, List, [], ◌∷◌, arith, Bool-cases, ltb, ◌==◌, if◌then◌else◌,
  length, length-read, read, u32,
}
use minimal_watch_firmware_e.Alarms.{
  Alarm, Table, Manager, Running, Env, discard_expired, schedule_next, stop_timer, put_table,
  refused, without, revalidate, fired,
}
use minimal_watch_firmware_e.Alarms.Lists.{held}
use minimal_watch_firmware_e.Alarms.Create.{Shows, schedule-table}
use minimal_watch_firmware_e.Alarms.Remove.{drop_due, without-held, discard_expired-held}
use minimal_watch_firmware_e.Alarms.Edit.{read_alarm, read_alarm-read}

-- How long the watch waits for an alarm, in microseconds: until its time, or five seconds where it is
-- due within five seconds; times are 32 bits wide.
abbrev pub wait_us : (now epoch : ℕ) → ℕ
wait_us now epoch =
    if ltb (u32 (now + 5)) epoch then u32 (epoch + 4294967296 - now) * 1000000 else 5000000

-- How the timer runs when it was set just now, for the first of the alarms.
abbrev pub timer_for : Env → List Alarm → Option Running
timer_for env [] = none
timer_for env (x ∷ l) =
    if env.started
    then some (record { since = env.now; timeout_us = wait_us env.now x.epoch })
    else none

-- The timer is set anew, or is off without an alarm.
abbrev pub rearmed : Env → Table → Manager → Manager
rearmed env t s = if ltb 0 t.n_alarms then schedule_next env t s else stop_timer s

pub rearmed-table : (env : Env) (t : Table) (s : Manager) → (rearmed env t s).table ≡ s.table
rearmed-table env t s = elim (Bool-cases (ltb 0 t.n_alarms)) [
  | inl more ↦ rw more (schedule-table env t s)
  | inr last ↦ rw last refl
]

pub rearmed-running :
    (env : Env) (t : Table) (s : Manager)
    → s.timer ≡ true
    → (rearmed env t s).running ≡ timer_for env (held t)
rearmed-running env t s on = at t.n_alarms refl
  where
    at : (n : ℕ) → t.n_alarms ≡ n → (rearmed env t s).running ≡ timer_for env (held t)
    at zero e = rw e refl
    at (suc n) e =
        let more : ltb 0 t.n_alarms ≡ true = ground arith in
        let need : (t.n_alarms == 0 || not s.timer) ≡ false = ground (arith, on) in
        rw (more, need) (sym (ap (λ k. timer_for env (read t.alarms 0 k)) e))

revalidate-run :
    (env : Env) (s : Manager) (t : Table)
    → s.table ≡ some t
    → (not s.timer || refused env s) ≡ false
    → revalidate env s
      ≡ (true, rearmed env (discard_expired env.now t) (put_table s (discard_expired env.now t)))
unfolding revalidate
revalidate-run env s t e ok = rw (e, ok) refl

-- On a valid table, with a timer and with the lock taken, `alarm_manager_revalidate` returns true,
-- takes exactly the alarms away that are due within five seconds, and sets the timer for the first of
-- the others; without one it stops the timer.
pub revalidate_refines :
    (env : Env) (s : Manager) (l : List Alarm)
    → Shows s l
    → s.timer ≡ true
    → refused env s ≡ false
    → (s' : Manager) × (revalidate env s ≡ (true, s'))
      × Shows s' (drop_due (u32 (env.now + 5)) l)
      × (s'.running ≡ timer_for env (drop_due (u32 (env.now + 5)) l))
revalidate_refines env s l v on ok =
    let t = v.table in
    let t' = discard_expired env.now t in
    let (shown, valid) = discard_expired-held env.now t v.valid in
    let listed = shown ∙ ap (drop_due (u32 (env.now + 5))) v.listed in
    (
      rearmed env t' (put_table s t'),
      revalidate-run env s t v.there (ap₂ (λ a b. not a || b) on ok),
      record {
        table = t';
        there = rearmed-table env t' (put_table s t');
        valid = valid;
        listed = listed;
      },
      rearmed-running env t' (put_table s t') on ∙ ap (timer_for env) listed,
    )

fired-run :
    (env : Env) (s : Manager) (t : Table)
    → s.table ≡ some t
    → (not s.mutex || not env.locked || t.n_alarms == 0) ≡ false
    → fired env s
      ≡ (some (t.alarms 0), rearmed env (without t 0) (put_table (stop_timer s) (without t 0)))
unfolding fired
fired-run env s t e ok = rw (e, ok) refl

-- When the timer fires over a valid table that has an alarm, and the lock is taken, the callback
-- publishes the first alarm, takes it away, and sets the timer for the next one, if there is one.
pub fired_refines :
    (env : Env) (s : Manager) (x : Alarm) (l : List Alarm)
    → Shows s (x ∷ l)
    → s.timer ≡ true
    → s.mutex ≡ true
    → env.locked ≡ true
    → (s' : Manager) × (fired env s ≡ (some x, s')) × Shows s' l × (s'.running ≡ timer_for env l)
fired_refines env s x l v on m k =
    let t = v.table in
    let count : t.n_alarms ≡ suc (length l) =
      sym (length-read t.alarms 0 t.n_alarms) ∙ ap length v.listed in
    let some_left : (not s.mutex || not env.locked || t.n_alarms == 0) ≡ false =
      ground (arith, count, m, k) in
    let first : t.alarms 0 ≡ x = some_inj (
      sym (read_alarm-read t.alarms 0 0 t.n_alarms (omega (arith, count)))
      ∙ ap (read_alarm 0) v.listed) in
    let t' = without t 0 in
    let (shown, valid) = without-held t 0 v.valid (omega (arith, count)) in
    let listed = shown ∙ ap (remove_at 0) v.listed in
    (
      rearmed env t' (put_table (stop_timer s) t'),
      fired-run env s t v.there some_left
          ∙ ap (λ a. (some a, rearmed env t' (put_table (stop_timer s) t'))) first,
      record {
        table = t';
        there = rearmed-table env t' (put_table (stop_timer s) t');
        valid = valid;
        listed = listed;
      },
      rearmed-running env t' (put_table (stop_timer s) t') on ∙ ap (timer_for env) listed,
    )
