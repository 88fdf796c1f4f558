-- ===== src/Alarms/Edit.antt =====
-- `alarm_manager_edit_alarm`: an alarm is taken out, and another one put in.
use mathlib.Core.Path.{subst}
use minimal_watch_firmware_e.Base.{
  remove_at, ℕ, zero, suc, ◌+◌, ◌<◌, ◌≡◌, ◌∙◌, refl, sym, ap, inl, inr, Bool, true, false, Option,
  none, some, some_inj, List, [], ◌∷◌, arith, Bool-cases, leb, lt→ltb, if◌then◌else◌, length,
  length-read, take, read,
}
use minimal_watch_firmware_e.Alarms.{
  Alarm, Table, Manager, Env, refused, create, delete, edit_in, edit,
}
use minimal_watch_firmware_e.Alarms.Lists.{insert}
use minimal_watch_firmware_e.Alarms.Create.{Shows, accepts, create_refines}
use minimal_watch_firmware_e.Alarms.Remove.{delete_refines}

-- The alarm at an index.
abbrev pub read_alarm : ℕ → List Alarm → Option Alarm
read_alarm i [] = none
read_alarm zero (x ∷ l) = some x
read_alarm (suc i) (x ∷ l) = read_alarm i l

-- A list with one more alarm, if it is accepted.
abbrev pub with_alarm : ℕ → Alarm → List Alarm → List Alarm
with_alarm now a l = if accepts now a l then take 5 (insert a l) else l

edit-table :
    (look del add back : Env) (s : Manager) (t : Table) (i : ℕ) (new : Alarm)
    → s.table ≡ some t
    → edit look del add back (some i) new s ≡ edit_in look del add back t i new s
unfolding edit
edit-table look del add back s t i new e = rw e refl

changed :
    (look del add back : Env) (s s1 s2 : Manager) (t : Table) (i : ℕ) (new : Alarm)
    → refused look s ≡ false
    → leb t.n_alarms i ≡ false
    → delete del (some i) s ≡ (true, s1)
    → create add (some new) s1 ≡ some (true, s2)
    → edit_in look del add back t i new s ≡ some (true, s2)
changed look del add back s s1 s2 t i new ok h d c = rw (ok, h, d, c) refl

rolled_back :
    (look del add back : Env) (s s1 s2 s3 : Manager) (t : Table) (i : ℕ) (new : Alarm)
    (restored : Bool)
    → refused look s ≡ false
    → leb t.n_alarms i ≡ false
    → delete del (some i) s ≡ (true, s1)
    → create add (some new) s1 ≡ some (false, s2)
    → create back (some (t.alarms i)) s2 ≡ some (restored, s3)
    → edit_in look del add back t i new s ≡ some (false, s3)
rolled_back look del add back s s1 s2 s3 t i new restored ok h d c r = rw (ok, h, d, c, r) refl

-- The lock is there, and a call gets it.
abbrev pub Free : Env → Type 0
Free env = (env.locked ≡ true) × (env.now < 4294967296)

refused_not : (env : Env) (s : Manager) → Free env → refused env s ≡ false
refused_not env s (l, h) = elim (Bool-cases s.mutex) [
  | inl there ↦ rw (there, l) refl
  | inr gone ↦ rw gone refl
]

pub read_alarm-read :
    (m : ℕ → Alarm) (o i n : ℕ) → i < n → read_alarm i (read m o n) ≡ some (m (o + i))
read_alarm-read m o i zero h = absurd (omega arith)
read_alarm-read m o zero (suc n) h = ap (λ j. some (m j)) (omega arith)
read_alarm-read m o (suc i) (suc n) h =
    read_alarm-read m (o + 1) i n (omega arith) ∙ ap (λ j. some (m j)) (omega arith)

-- On a valid table and with the lock taken each time, `alarm_manager_edit_alarm` at the index of an
-- alarm returns true exactly if the new alarm is accepted by the table without the old one, and then
-- puts it in. Otherwise the old alarm goes back, but only if it is itself accepted at that time; an
-- alarm that is due within five seconds is lost by an edit that fails.
pub edit_refines :
    (look del add back : Env) (s : Manager) (i : ℕ) (l : List Alarm) (old new : Alarm)
    → Shows s l
    → Free look
    → Free del
    → Free add
    → Free back
    → i < length l
    → read_alarm i l ≡ some old
    → old.epoch < 4294967296
    → new.epoch < 4294967296
    → (s' : Manager) × (edit look del add back (some i) new s
        ≡ some (accepts add.now new (remove_at i l), s'))
      × Shows s' (
          if accepts add.now new (remove_at i l)
          then take 5 (insert new (remove_at i l))
          else with_alarm back.now old (remove_at i l))
edit_refines look del add back s i l old new v fl fd fa fb h o ho hn =
    let t = v.table in
    let count : length l ≡ t.n_alarms =
      ap length (sym v.listed) ∙ length-read t.alarms 0 t.n_alarms in
    let inside : leb t.n_alarms i ≡ false = ground (arith, count) in
    let (done, w1) = delete_refines del s i l v (refused_not del s fd) in
    let s1 = (delete del (some i) s).1 in
    let deleted : delete del (some i) s ≡ (true, s1) =
      ap (λ b. (b, s1)) (done ∙ lt→ltb i (length l) h) in
    let r = remove_at i l in
    let (s2, made, w2) = create_refines add s1 new r w1 (refused_not add s1 fa) fa.1 hn in
    let start = edit-table look del add back s t i new v.there in
    elim (Bool-cases (accepts add.now new r)) [
      | inl good ↦ (
        s2,
        start
            ∙ changed look del add back s s1 s2 t i new (refused_not look s fl) inside deleted
                (made ∙ ap (λ b. some (b, s2)) good)
            ∙ ap (λ b. some (b, s2)) (sym good),
        subst (λ b. Shows s2 (if b then take 5 (insert new r) else with_alarm back.now old r))
            (sym good) (subst (λ b. Shows s2 (if b then take 5 (insert new r) else r)) good w2),
      )
      | inr bad ↦
          let w : Shows s2 r =
            subst (λ b. Shows s2 (if b then take 5 (insert new r) else r)) bad w2 in
          let (s3, back_in, w3) = create_refines back s2 old r w (refused_not back s2 fb) fb.1 ho in
          let was : t.alarms i ≡ old = some_inj (
            ap (λ j. some (t.alarms j)) (omega arith)
            ∙ sym (read_alarm-read t.alarms 0 i t.n_alarms (omega (arith, count)))
            ∙ ap (read_alarm i) v.listed
            ∙ o) in
          (
            s3,
            start
                ∙ rolled_back look del add back s s1 s2 s3 t i new (accepts back.now old r)
                    (refused_not look s fl) inside deleted (made ∙ ap (λ b. some (b, s2)) bad)
                    (ap (λ x. create back (some x) s2) was ∙ back_in)
                ∙ ap (λ b. some (b, s3)) (sym bad),
            subst (λ b. Shows s3 (if b then take 5 (insert new r) else with_alarm back.now old r))
                (sym bad) w3,
          )
    ]
