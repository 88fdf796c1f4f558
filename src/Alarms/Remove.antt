-- ===== src/Alarms/Remove.antt =====
-- Alarms that go: `alarm_manager_delete_alarm`, `discard_expired_alarms` and `alarm_fired_cb`.
use mathlib.Core.Path.{subst}
use minimal_watch_firmware_e.Base.{
  ℕ, zero, suc, ◌+◌, ◌-◌, ◌≤◌, ◌<◌, ◌≡◌, ◌∙◌, refl, sym, ap, ap₂, inl, inr, Bool, true, false, some,
  List, [], ◌∷◌, arith, Bool-cases, ltb, leb, ◌==◌, ==_iff, if◌then◌else◌, length, length-read,
  read, u32, memmove, remove_at, read-memmove, read-remove_at,
}
use minimal_watch_firmware_e.Alarms.{
  Alarm, Table, Manager, Env, count_due, discard_expired, put_table, refused, without, after_delete,
  delete,
}
use minimal_watch_firmware_e.Alarms.Lists.{Later, Rising, held, IsValid}
use minimal_watch_firmware_e.Alarms.Create.{Shows, schedule-table}

-- Without the alarms at the front that are due up to a time.
abbrev pub drop_due : ℕ → List Alarm → List Alarm
drop_due e [] = []
drop_due e (x ∷ l) = if leb x.epoch e then drop_due e l else x ∷ l

Later-remove_at : (e i : ℕ) (l : List Alarm) → Later e l → Later e (remove_at i l)
Later-remove_at e i [] h = tt
Later-remove_at e zero (x ∷ l) (h, g) = g
Later-remove_at e (suc i) (x ∷ l) (h, g) = (h, Later-remove_at e i l g)

Rising-remove_at : (i : ℕ) (l : List Alarm) → Rising l → Rising (remove_at i l)
Rising-remove_at i [] h = tt
Rising-remove_at zero (x ∷ l) (h, g) = g
Rising-remove_at (suc i) (x ∷ l) (h, g) = (Later-remove_at x.epoch i l h, Rising-remove_at i l g)

Rising-drop_due : (e : ℕ) (l : List Alarm) → Rising l → Rising (drop_due e l)
Rising-drop_due e [] r = tt
Rising-drop_due e (x ∷ l) (h, r) = elim (Bool-cases (leb x.epoch e)) [
  | inl due ↦ rw due (Rising-drop_due e l r)
  | inr later ↦ rw later (h, r)
]

-- A table without one of its alarms shows the list without it, and is valid.
pub without-held :
    (t : Table) (i : ℕ)
    → IsValid t
    → i < t.n_alarms
    → (held (without t i) ≡ remove_at i (held t)) × IsValid (without t i)
without-held t i v h =
    let shown : held (without t i) ≡ remove_at i (held t) =
      ap (read (without t i).alarms 0) (omega arith) ∙ read-remove_at t.alarms i t.n_alarms h in
    (
      shown,
      record {
        fits = omega (arith, v.fits);
        rising = subst Rising (sym shown) (Rising-remove_at i (held t) v.rising);
      },
    )

count_due_lem :
    (m : ℕ → Alarm) (e i n : ℕ)
    → (count_due m e i n ≤ n)
      × (drop_due e (read m i n) ≡ read m (i + count_due m e i n) (n - count_due m e i n))
count_due_lem m e i zero = (omega arith, refl)
count_due_lem m e i (suc n) = elim (Bool-cases (leb (m i).epoch e)) [
  | inl due ↦
      let (b, c) = count_due_lem m e (i + 1) n in
      rw due (omega (arith, b), c ∙ ap₂ (read m) (omega arith) (omega arith))
  | inr later ↦
      let at : i ≡ i + 0 = omega arith in
      let all : suc n ≡ suc n - 0 = omega arith in rw later (omega arith, ap₂ (read m) at all)
]

-- `discard_expired_alarms` takes exactly the alarms away that are due within five seconds, and leaves
-- a valid table.
pub discard_expired-held :
    (now : ℕ) (t : Table)
    → IsValid t
    → (held (discard_expired now t) ≡ drop_due (u32 (now + 5)) (held t))
      × IsValid (discard_expired now t)
discard_expired-held now t v =
    let e = u32 (now + 5) in
    let c = count_due t.alarms e 0 t.n_alarms in
    let (b, d) = count_due_lem t.alarms e 0 t.n_alarms in
    elim (Bool-cases (c == 0)) [
      | inl none_due ↦
          let zero_due : c ≡ 0 = (==_iff c 0).0 none_due in
          let at : 0 + c ≡ 0 = omega arith in
          let all : t.n_alarms - c ≡ t.n_alarms = omega arith in
          rw none_due (sym (d ∙ ap₂ (read t.alarms) at all), v)
      | inr some_due ↦
          let shown : read (memmove t.alarms 0 c (t.n_alarms - c)) 0 (t.n_alarms - c)
              ≡ drop_due e (held t) =
            ap (read (memmove t.alarms 0 c (t.n_alarms - c)) 0) (omega arith)
            ∙ read-memmove t.alarms 0 c (t.n_alarms - c)
            ∙ ap (λ j. read t.alarms j (t.n_alarms - c)) (omega arith)
            ∙ sym d in
          rw some_due (
            shown,
            record {
              fits = omega (arith, v.fits);
              rising = subst Rising (sym shown) (Rising-drop_due e (held t) v.rising);
            },
          )
    ]

after_delete-table :
    (env : Env) (t : Table) (i : ℕ) (s : Manager)
    → s.table ≡ some t
    → (after_delete env t i s).table ≡ some t
after_delete-table env t i s e = elim (Bool-cases (i == 0)) [
  | inl first ↦ elim (Bool-cases (ltb 0 t.n_alarms)) [
    | inl more ↦ rw (first, more) (schedule-table env t s ∙ e)
    | inr last ↦ rw (first, last) e
  ]
  | inr later ↦ rw later e
]

delete-table :
    (env : Env) (s : Manager) (t : Table) (i : ℕ)
    → s.table ≡ some t
    → refused env s ≡ false
    → leb t.n_alarms i ≡ false
    → delete env (some i) s ≡ (true, after_delete env (without t i) i (put_table s (without t i)))
unfolding delete
delete-table env s t i e ok h = rw (e, ok, h) refl

delete-outside :
    (env : Env) (s : Manager) (t : Table) (i : ℕ)
    → s.table ≡ some t
    → refused env s ≡ false
    → leb t.n_alarms i ≡ true
    → delete env (some i) s ≡ (false, s)
unfolding delete
delete-outside env s t i e ok h = rw (e, ok, h) refl

-- On a valid table, with the lock taken, `alarm_manager_delete_alarm` at an index that is not
-- negative returns whether there is an alarm at the index, and leaves a valid table without it.
pub delete_refines :
    (env : Env) (s : Manager) (i : ℕ) (l : List Alarm)
    → Shows s l
    → refused env s ≡ false
    → ((delete env (some i) s).0 ≡ ltb i (length l))
      × Shows (delete env (some i) s).1 (remove_at i l)
delete_refines env s i l v ok =
    let t = v.table in
    let count : length l ≡ t.n_alarms =
      ap length (sym v.listed) ∙ length-read t.alarms 0 t.n_alarms in
    elim (Bool-cases (leb t.n_alarms i)) [
      | inl out ↦
          let e = delete-outside env s t i v.there ok out in
          (
            ap (λ (x : Bool × Manager). x.0) e ∙ ground (arith, count),
            subst (λ (x : Bool × Manager). Shows x.1 (remove_at i l)) (sym e)
                (record {
                  table = t;
                  there = v.there;
                  valid = v.valid;
                  listed = v.listed ∙ sym (outside i l (ground (arith, count)));
                }),
          )
      | inr here ↦
          let e = delete-table env s t i v.there ok here in
          let (shown, valid) = without-held t i v.valid (ground arith) in
          (
            ap (λ (x : Bool × Manager). x.0) e ∙ ground (arith, count),
            subst (λ (x : Bool × Manager). Shows x.1 (remove_at i l)) (sym e)
                (record {
                  table = without t i;
                  there = after_delete-table env (without t i) i (put_table s (without t i)) refl;
                  valid = valid;
                  listed = shown ∙ ap (remove_at i) v.listed;
                }),
          )
    ]
  where
    outside : (i : ℕ) (l : List Alarm) → length l ≤ i → remove_at i l ≡ l
    outside i [] h = refl
    outside zero (x ∷ l) h = absurd (omega arith)
    outside (suc i) (x ∷ l) h = ap (λ k. x ∷ k) (outside i l (omega arith))
