-- ===== src/Alarms/Create.antt =====
-- `alarm_manager_create_alarm` against the list of alarms.
use mathlib.Core.Path.{subst}
use minimal_watch_firmware_e.Base.{
  ℕ, zero, suc, ◌+◌, ◌≤◌, ◌<◌, ◌≡◌, ◌∙◌, refl, sym, ap, ap₂, inl, inr, Bool, true, false, not, ◌&&◌,
  ◌||◌, some, List, [], ◌∷◌, arith, Bool-cases, ltb, leb, ◌==◌, ==_iff, if◌then◌else◌, length,
  length-read, take, read,
}
use minimal_watch_firmware_e.Alarms.{
  Alarm, Table, Manager, Env, schedule_next, put_table, refused, has_epoch, make_room, inserted,
  insert_alarm, get_all, in_past, too_far, create_in, create,
}
use minimal_watch_firmware_e.Alarms.Lists.{
  Rising, insert, taken_time, held, IsValid, inserted-held, replaced-held, has_epoch_lem,
  length-insert,
}

abbrev pub epoch_at : ℕ → List Alarm → ℕ
epoch_at i [] = 0
epoch_at zero (x ∷ l) = x.epoch
epoch_at (suc i) (x ∷ l) = epoch_at i l

-- Which alarms are taken: more than five seconds and at most a year ahead, at a time that is free,
-- and if there are five already, before the last of them.
abbrev pub accepts : ℕ → Alarm → List Alarm → Bool
accepts now a l =
    ((ltb (now + 5) a.epoch && leb a.epoch (now + 31536000)) && not (taken_time a.epoch l))
    && (ltb (length l) 5 || ltb a.epoch (epoch_at 4 l))

-- The state holds a valid table that shows the list.
pub record Shows (s : Manager) (l : List Alarm) : Type 0 where
  pub table : Table
  pub there : s.table ≡ some table
  pub valid : IsValid table
  pub listed : held table ≡ l

pub schedule-table : (env : Env) (t : Table) (s : Manager) → (schedule_next env t s).table ≡ s.table
schedule-table env t s = elim (Bool-cases (t.n_alarms == 0 || not s.timer)) [
  | inl no_need ↦ rw no_need refl
  | inr need ↦ rw need refl
]

insert_alarm-table :
    (env : Env) (t : Table) (a : Alarm) (count : ℕ) (s : Manager)
    → (insert_alarm env t a count s).table ≡ some (inserted t a count)
insert_alarm-table env t a count s = elim (Bool-cases ((make_room t.alarms a.epoch count).1 == 0)) [
  | inl first ↦
      rw first (schedule-table env (inserted t a count) (put_table s (inserted t a count)))
  | inr later ↦ rw later refl
]

take_short : {A : Type 0} (n : ℕ) (xs : List A) → length xs ≤ n → take n xs ≡ xs
take_short zero [] h = refl
take_short zero (x ∷ xs) h = absurd (omega arith)
take_short (suc n) [] h = refl
take_short (suc n) (x ∷ xs) h = ap (λ l. x ∷ l) (take_short n xs (omega arith))

-- The guards on the time, without their wrap-around.
timely :
    (now e : ℕ)
    → now < 4294967296
    → e < 4294967296
    → (in_past now e || too_far now e) ≡ not (ltb (now + 5) e && leb e (now + 31536000))
timely now e h k = ground arith

-- What becomes of the guards of `alarm_manager_create_alarm`.
guards : (r p f d w : Bool) → r ≡ false → (p || f) ≡ not w → (r || p || f || d) ≡ not (w && not d)
guards true p f d w e t = absurd cc
guards false true f d true e t = absurd cc
guards false true f d false e t = refl
guards false false true d true e t = absurd cc
guards false false true d false e t = refl
guards false false false true true e t = refl
guards false false false false true e t = refl
guards false false false d false e t = absurd cc

module _ (env : Env) (t : Table) (a : Alarm) (s : Manager) (v : IsValid t) (here : s.table ≡ some t)
    (ok : refused env s ≡ false) (h : env.now < 4294967296) (k : a.epoch < 4294967296) where
  -- The outcome of `create_in`, told by what `accepts` says.
  abbrev Outcome : Bool → Type 0
  Outcome b =
      (s' : Manager) × (create_in env t a s ≡ (b, s'))
      × Shows s' (if b then take 5 (insert a (held t)) else held t)

  stays : create_in env t a s ≡ (false, s) → Outcome false
  stays e = (s, e, record { table = t; there = here; valid = v; listed = refl })

  abbrev window : Bool
  window = ltb (env.now + 5) a.epoch && leb a.epoch (env.now + 31536000)

  guard :
      (refused env s
        || in_past env.now a.epoch
        || too_far env.now a.epoch
        || has_epoch t.alarms a.epoch 0 t.n_alarms)
      ≡ not (window && not (taken_time a.epoch (held t)))
  guard =
      guards (refused env s) (in_past env.now a.epoch) (too_far env.now a.epoch)
        (has_epoch t.alarms a.epoch 0 t.n_alarms) window ok (timely env.now a.epoch h k)
      ∙ ap (λ d. not (window && not d)) (has_epoch_lem t.alarms a.epoch 0 t.n_alarms)

  abbrev wanted : Bool
  wanted = window && not (taken_time a.epoch (held t))

  abbrev room : Bool
  room = ltb (length (held t)) 5 || ltb a.epoch (epoch_at 4 (held t))

  unwanted : wanted ≡ false → create_in env t a s ≡ (false, s)
  unwanted w = let e = guard ∙ ap not w in rw e refl

  too_late :
      wanted ≡ true
      → (t.n_alarms == 5) ≡ true
      → leb (t.alarms 4).epoch a.epoch ≡ true
      → create_in env t a s ≡ (false, s)
  too_late w full late = let e = guard ∙ ap not w in rw (e, full, late) refl

  replaces :
      wanted ≡ true
      → (t.n_alarms == 5) ≡ true
      → leb (t.alarms 4).epoch a.epoch ≡ false
      → create_in env t a s ≡ (true, insert_alarm env t a 4 s)
  replaces w full early = let e = guard ∙ ap not w in rw (e, full, early) refl

  adds :
      wanted ≡ true
      → (t.n_alarms == 5) ≡ false
      → create_in env t a s ≡ (true, insert_alarm env t a t.n_alarms s)
  adds w some_left = let e = guard ∙ ap not w in rw (e, some_left) refl

  new_time : wanted ≡ true → taken_time a.epoch (held t) ≡ false
  new_time w = ground arith

  last : t.n_alarms ≡ 5 → epoch_at 4 (held t) ≡ (t.alarms 4).epoch
  last full = ap (λ n. epoch_at 4 (read t.alarms 0 n)) full

  with_room :
      (b : Bool) → wanted ≡ true → room ≡ b → Outcome b → Outcome (accepts env.now a (held t))
  with_room b w r o = subst Outcome (sym (ap₂ (λ x y. x && y) w r)) o

  created : Outcome (accepts env.now a (held t))
  created =
      let count = length-read t.alarms 0 t.n_alarms in
      elim (Bool-cases wanted) [
        | inr out ↦ subst Outcome (sym (ap (λ x. x && room) out)) (stays (unwanted out))
        | inl w ↦ elim (Bool-cases (t.n_alarms == 5)) [
          | inl is_five ↦
              let full : t.n_alarms ≡ 5 = (==_iff t.n_alarms 5).0 is_five in
              elim (Bool-cases (leb (t.alarms 4).epoch a.epoch)) [
                | inl late ↦
                    with_room false w (ground (arith, count, last full))
                      (stays (too_late w is_five late))
                | inr early ↦
                    let (l, valid) = replaced-held t a v full (new_time w) (ground arith) in
                    with_room true w (ground (arith, count, last full)) (
                      insert_alarm env t a 4 s,
                      replaces w is_five early,
                      record {
                        table = inserted t a 4;
                        there = insert_alarm-table env t a 4 s;
                        valid = valid;
                        listed = l;
                      },
                    )
              ]
          | inr some_left ↦
              let less : t.n_alarms < 5 = ground (arith, v.fits) in
              let (l, valid) = inserted-held t a v less (new_time w) in
              with_room true w (ground (arith, count)) (
                insert_alarm env t a t.n_alarms s,
                adds w some_left,
                record {
                  table = inserted t a t.n_alarms;
                  there = insert_alarm-table env t a t.n_alarms s;
                  valid = valid;
                  listed =
                      l
                      ∙ sym (
                          take_short 5 (insert a (held t))
                            (omega (arith, count, length-insert a (held t))));
                },
              )
        ]
      ]

create-table :
    (env : Env) (s : Manager) (a : Alarm) (t : Table)
    → s.table ≡ some t
    → leb t.n_alarms 5 ≡ true
    → create env (some a) s ≡ some (create_in env t a s)
unfolding create
create-table env s a t e h = rw (e, h) refl

-- On a valid table, with the lock taken, `alarm_manager_create_alarm` returns true exactly for the
-- alarms that `accepts` names, and the table then has the earliest five of the old alarms and the new
-- one in the order of their times; otherwise it is as before. It is valid again.
pub create_refines :
    (env : Env) (s : Manager) (a : Alarm) (l : List Alarm)
    → Shows s l
    → refused env s ≡ false
    → env.now < 4294967296
    → a.epoch < 4294967296
    → (s' : Manager) × (create env (some a) s ≡ some (accepts env.now a l, s'))
      × Shows s' (if accepts env.now a l then take 5 (insert a l) else l)
create_refines env s a l v ok h k =
    subst
      (λ x.
        (s' : Manager) × (create env (some a) s ≡ some (accepts env.now a x, s'))
        × Shows s' (if accepts env.now a x then take 5 (insert a x) else x))
      v.listed
      (let (s', e, w) = created env v.table a s v.valid v.there ok h k in
        (s', create-table env s a v.table v.there (ground (arith, v.valid.fits)) ∙ ap some e, w))

get_all-run :
    (env : Env) (s : Manager) (t : Table)
    → s.table ≡ some t
    → (not s.mutex || false || not env.locked) ≡ false
    → ltb 5 t.n_alarms ≡ false
    → get_all true env s ≡ (t.n_alarms, held t)
unfolding get_all
get_all-run env s t e ok h = rw (e, ok, h) refl

-- On a valid table, with a mutex that is taken, `alarm_manager_get_all_alarms` with a buffer returns
-- the number of the alarms and copies all of them, in the order of their times.
pub get_all_refines :
    (env : Env) (s : Manager) (l : List Alarm)
    → Shows s l
    → s.mutex ≡ true
    → env.locked ≡ true
    → (get_all true env s ≡ (length l, l)) × Rising l
get_all_refines env s l v m k =
    let t = v.table in
    let count : t.n_alarms ≡ length l =
      sym (length-read t.alarms 0 t.n_alarms) ∙ ap length v.listed in
    (
      get_all-run env s t v.there (ap₂ (λ a b. not a || false || not b) m k)
            (ground (arith, v.valid.fits))
          ∙ ap₂ (λ (n : ℕ) (x : List Alarm). (n, x)) count v.listed,
      subst Rising v.listed v.valid.rising,
    )
