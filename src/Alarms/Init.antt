-- ===== src/Alarms/Init.antt =====
-- `alarm_manager_init`: the stored alarms are put in order, and the timer is set.
use mathlib.Core.Path.{subst}
use minimal_watch_firmware_e.Base.{
  ℕ, zero, suc, ◌+◌, ◌≤◌, ◌≡◌, ◌∙◌, refl, sym, ap, inl, inr, true, false, none, some, List, [], ◌∷◌,
  ◌++◌, arith, Bool-cases, ltb, leb, ◌==◌, if◌then◌else◌, read, u32,
}
use minimal_watch_firmware_e.Alarms.{Alarm, Table, Manager, Env, qsort, discard_expired, init}
use minimal_watch_firmware_e.Alarms.Lists.{
  Rising, insert, taken_time, held, IsValid, read-last, insert-make_room, Rising-insert,
}
use minimal_watch_firmware_e.Alarms.Create.{Shows}
use minimal_watch_firmware_e.Alarms.Remove.{drop_due, discard_expired-held}
use minimal_watch_firmware_e.Alarms.Timer.{timer_for, rearmed, rearmed-table, rearmed-running}

-- The first `n` alarms in the order of their times.
abbrev pub in_order : (ℕ → Alarm) → ℕ → List Alarm
in_order m zero = []
in_order m (suc n) = insert (m n) (in_order m n)

-- No two of the first `n` alarms are at the same time.
abbrev pub AllApart : (ℕ → Alarm) → ℕ → Type 0
AllApart m zero = Unit {0}
AllApart m (suc n) = (taken_time (m n).epoch (read m 0 n) ≡ false) × AllApart m n

taken_time-insert :
    (e : ℕ) (a : Alarm) (l : List Alarm)
    → taken_time e (insert a l) ≡ (if a.epoch == e then true else taken_time e l)
taken_time-insert e a [] = refl
taken_time-insert e a (x ∷ l) = elim (Bool-cases (ltb a.epoch x.epoch)) [
  | inl p ↦ rw p refl
  | inr p ↦ rw p (ground (arith, taken_time-insert e a l))
]

taken_time-snoc :
    (e : ℕ) (l : List Alarm) (x : Alarm)
    → taken_time e (l ++ (x ∷ [])) ≡ (if x.epoch == e then true else taken_time e l)
taken_time-snoc e [] x = refl
taken_time-snoc e (y ∷ l) x = ground (arith, taken_time-snoc e l x)

taken_time-in_order :
    (m : ℕ → Alarm) (e n : ℕ) → taken_time e (in_order m n) ≡ taken_time e (read m 0 n)
taken_time-in_order m e zero = refl
taken_time-in_order m e (suc n) =
    taken_time-insert e (m n) (in_order m n)
    ∙ ap (λ b. if (m n).epoch == e then true else b) (taken_time-in_order m e n)
    ∙ sym (taken_time-snoc e (read m 0 n) (m n))
    ∙ ap (taken_time e) (sym (read-last m n))

Rising-in_order : (m : ℕ → Alarm) (n : ℕ) → AllApart m n → Rising (in_order m n)
Rising-in_order m zero h = tt
Rising-in_order m (suc n) (h, k) =
    Rising-insert (m n) (in_order m n) (Rising-in_order m n k)
      (taken_time-in_order m (m n).epoch n ∙ h)

read-qsort : (m : ℕ → Alarm) (n : ℕ) → AllApart m n → read (qsort m n) 0 n ≡ in_order m n
read-qsort m zero h = refl
read-qsort m (suc n) (h, k) =
    let before = read-qsort m n k in
    insert-make_room (qsort m n) (m n) n (subst Rising (sym before) (Rising-in_order m n k))
    ∙ ap (insert (m n)) before

init-run :
    (env : Env) (t : Table) (s : Manager)
    → leb t.n_alarms 5 ≡ true
    → init env true true (some t) s
      ≡ some (
          rearmed env
            (discard_expired env.now (record t { alarms = qsort t.alarms t.n_alarms }))
            (record {
              table =
                  some (discard_expired env.now (record t { alarms = qsort t.alarms t.n_alarms }));
              timer = true;
              running = none;
              mutex = true;
            }))
unfolding init
init-run env t s h = rw h refl

-- Over stored alarms, at most five and no two at the same time, and if the timer and the mutex can be
-- made, `alarm_manager_init` succeeds. The table then is valid and has the stored alarms in the order of
-- their times, without those that are due within five seconds, and the timer is set for the first.
pub init_refines :
    (env : Env) (t : Table) (s : Manager)
    → t.n_alarms ≤ 5
    → AllApart t.alarms t.n_alarms
    → (s' : Manager) × (init env true true (some t) s ≡ some s')
      × Shows s' (drop_due (u32 (env.now + 5)) (in_order t.alarms t.n_alarms))
      × (s'.running ≡ timer_for env (drop_due (u32 (env.now + 5)) (in_order t.alarms t.n_alarms)))
init_refines env t s h d =
    let sorted : Table = record t { alarms = qsort t.alarms t.n_alarms } in
    let order : held sorted ≡ in_order t.alarms t.n_alarms = read-qsort t.alarms t.n_alarms d in
    let valid : IsValid sorted = record {
      fits = h;
      rising = subst Rising (sym order) (Rising-in_order t.alarms t.n_alarms d);
    } in
    let (shown, valid') = discard_expired-held env.now sorted valid in
    let listed = shown ∙ ap (drop_due (u32 (env.now + 5))) order in
    let t' = discard_expired env.now sorted in
    let s0 : Manager = record { table = some t'; timer = true; running = none; mutex = true } in
    (
      rearmed env t' s0,
      init-run env t s (ground arith),
      record { table = t'; there = rearmed-table env t' s0; valid = valid'; listed = listed },
      rearmed-running env t' s0 refl ∙ ap (timer_for env) listed,
    )
