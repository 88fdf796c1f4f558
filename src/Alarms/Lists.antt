-- ===== src/Alarms/Lists.antt =====
-- Alarms as a list in the order of their times, and the arrays that hold them.
use mathlib.Core.Path.{subst}
use minimal_watch_firmware_e.Base.{
  ℕ, zero, suc, ◌+◌, ◌≤◌, ◌<◌, ◌≡◌, ◌∙◌, refl, sym, ap, ap₂, inl, inr, Bool, true, false, List, [],
  ◌∷◌, ◌++◌, arith, Bool-cases, ltb, ltb→lt, ltb→le, ◌==◌, if◌then◌else◌, length, take, take_all,
  store, store_here, store_there, read, read_agree, read-add,
}
use minimal_watch_firmware_e.Alarms.{Alarm, Table, has_epoch, make_room, inserted, max_watch_alarms}

-- Every alarm of a list is later than a time.
abbrev pub Later : ℕ → List Alarm → Type 0
Later e [] = Unit {0}
Later e (a ∷ l) = (e < a.epoch) × Later e l

-- The times rise.
abbrev pub Rising : List Alarm → Type 0
Rising [] = Unit {0}
Rising (a ∷ l) = Later a.epoch l × Rising l

abbrev pub insert : Alarm → List Alarm → List Alarm
insert a [] = a ∷ []
insert a (x ∷ l) = if ltb a.epoch x.epoch then a ∷ x ∷ l else x ∷ insert a l

abbrev pub taken_time : ℕ → List Alarm → Bool
taken_time e [] = false
taken_time e (x ∷ l) = if x.epoch == e then true else taken_time e l

abbrev pub held : Table → List Alarm
held t = read t.alarms 0 t.n_alarms

Later-append : (e : ℕ) (l k : List Alarm) → Later e l → Later e k → Later e (l ++ k)
Later-append e [] k h g = g
Later-append e (x ∷ l) k (h, hs) g = (h, Later-append e l k hs g)

Later-weaken : (d e : ℕ) (l : List Alarm) → d ≤ e → Later e l → Later d l
Later-weaken d e [] h g = tt
Later-weaken d e (x ∷ l) h (g, gs) = (omega arith, Later-weaken d e l h gs)

-- An alarm goes in before a later one, whatever is in front.
pub insert-later :
    (a y : Alarm) (l : List Alarm)
    → a.epoch < y.epoch
    → insert a (l ++ (y ∷ [])) ≡ insert a l ++ (y ∷ [])
insert-later a y [] h = ground arith
insert-later a y (x ∷ l) h = elim (Bool-cases (ltb a.epoch x.epoch)) [
  | inl e ↦ rw e refl
  | inr e ↦ rw e (ap (λ k. x ∷ k) (insert-later a y l h))
]

-- Behind a list that rises up to `y`, which is no later than `a`, it goes in last.
insert-last :
    (a y : Alarm) (l : List Alarm)
    → y.epoch ≤ a.epoch
    → Rising (l ++ (y ∷ []))
    → insert a (l ++ (y ∷ [])) ≡ (l ++ (y ∷ [])) ++ (a ∷ [])
insert-last a y [] h r = ground arith
insert-last a y (x ∷ l) h (later, r) =
    let below : x.epoch < y.epoch = end l later in
    let no : ltb a.epoch x.epoch ≡ false = ground arith in
    rw no (ap (λ k. x ∷ k) (insert-last a y l h r))
  where
    end : (l : List Alarm) → Later x.epoch (l ++ (y ∷ [])) → x.epoch < y.epoch
    end [] g = g.0
    end (z ∷ l) g = end l g.1

-- A list of cells by its last cell.
pub read-last : {A : Type 0} (m : ℕ → A) (n : ℕ) → read m 0 (suc n) ≡ read m 0 n ++ (m n ∷ [])
read-last m n =
    let e : suc n ≡ n + 1 = omega arith in
    ap (read m 0) e ∙ read-add m 0 n 1 ∙ ap (λ k. read m 0 n ++ (m k ∷ [])) (omega arith)

-- The loop leaves the cells behind alone and finds an index among the first.
pub make_room_bounds :
    (m : ℕ → Alarm) (e i : ℕ)
    → ((make_room m e i).1 ≤ i) × ((j : ℕ) → i < j → (make_room m e i).0 j ≡ m j)
make_room_bounds m e zero = (omega arith, λ j h. refl)
make_room_bounds m e (suc i) = elim (Bool-cases (ltb e (m i).epoch)) [
  | inr stop ↦ rw stop (omega arith, λ j h. refl)
  | inl move ↦
      let (b, c) = make_room_bounds (store m (suc i) (m i)) e i in
      rw move
        (omega (arith, b), λ j h. c j (omega arith) ∙ store_there m (suc i) j (m i) (omega arith))
]

Later-front : (e : ℕ) (l k : List Alarm) → Later e (l ++ k) → Later e l
Later-front e [] k h = tt
Later-front e (x ∷ l) k (h, hs) = (h, Later-front e l k hs)

pub Rising-front : (l k : List Alarm) → Rising (l ++ k) → Rising l
Rising-front [] k h = tt
Rising-front (x ∷ l) k (h, hs) = (Later-front x.epoch l k h, Rising-front l k hs)

moves :
    (m : ℕ → Alarm) (e i : ℕ)
    → ltb e (m i).epoch ≡ true
    → make_room m e (suc i) ≡ make_room (store m (suc i) (m i)) e i
moves m e i h = rw h refl

stops : (m : ℕ → Alarm) (e i : ℕ) → ltb e (m i).epoch ≡ false → make_room m e (suc i) ≡ (m, suc i)
stops m e i h = rw h refl

-- What stands in the first cells after the loop and the write.
pub insert-make_room :
    (m : ℕ → Alarm) (a : Alarm) (i : ℕ)
    → Rising (read m 0 i)
    → read (store (make_room m a.epoch i).0 (make_room m a.epoch i).1 a) 0 (suc i)
      ≡ insert a (read m 0 i)
insert-make_room m a zero r = ap (λ x. x ∷ []) (store_here m 0 a)
insert-make_room m a (suc i) r =
    let shown = read-last m i in
    let r' : Rising (read m 0 i ++ (m i ∷ [])) = subst Rising shown r in
    elim (Bool-cases (ltb a.epoch (m i).epoch)) [
      | inl move ↦
          let m1 = store m (suc i) (m i) in
          let (b, c) = make_room_bounds m1 a.epoch i in
          let same : read m1 0 i ≡ read m 0 i =
            read_agree m1 m 0 i (λ j p q. store_there m (suc i) j (m i) (omega arith)) in
          ap (λ (x : (ℕ → Alarm) × ℕ). read (store x.0 x.1 a) 0 (suc (suc i)))
            (moves m a.epoch i move)
          ∙ (read-last (store (make_room m1 a.epoch i).0 (make_room m1 a.epoch i).1 a) (suc i)
              ∙ ap₂ (λ l x. l ++ (x ∷ []))
                  (insert-make_room m1 a i
                      (subst Rising (sym same) (Rising-front (read m 0 i) (m i ∷ []) r'))
                    ∙ ap (insert a) same)
                  (store_there (make_room m1 a.epoch i).0 (make_room m1 a.epoch i).1 (suc i) a
                      (omega (arith, b))
                    ∙ c (suc i) (omega arith)
                    ∙ store_here m (suc i) (m i))
              ∙ sym (insert-later a (m i) (read m 0 i) (ltb→lt _ _ move))
              ∙ ap (insert a) (sym shown))
      | inr stop ↦
          ap (λ (x : (ℕ → Alarm) × ℕ). read (store x.0 x.1 a) 0 (suc (suc i)))
            (stops m a.epoch i stop)
          ∙ (read-last (store m (suc i) a) (suc i)
              ∙ ap₂ (λ l x. l ++ (x ∷ []))
                  (read_agree (store m (suc i) a) m 0 (suc i)
                      (λ j p q. store_there m (suc i) j a (omega arith))
                    ∙ shown)
                  (store_here m (suc i) a)
              ∙ sym (insert-last a (m i) (read m 0 i) (ltb→le _ _ stop) r')
              ∙ ap (insert a) (sym shown))
    ]

Later-insert : (e : ℕ) (a : Alarm) (l : List Alarm) → e < a.epoch → Later e l → Later e (insert a l)
Later-insert e a [] h g = (h, tt)
Later-insert e a (x ∷ l) h (g, gs) = elim (Bool-cases (ltb a.epoch x.epoch)) [
  | inl p ↦ rw p (h, (g, gs))
  | inr p ↦ rw p (g, Later-insert e a l h gs)
]

-- A new time keeps the list rising.
pub Rising-insert :
    (a : Alarm) (l : List Alarm) → Rising l → taken_time a.epoch l ≡ false → Rising (insert a l)
Rising-insert a [] r n = (tt, tt)
Rising-insert a (x ∷ l) (later, r) n = elim (Bool-cases (x.epoch == a.epoch)) [
  | inl same ↦ absurd (ground arith)
  | inr other ↦
      let n' : taken_time a.epoch l ≡ false = rw other at n in
      elim (Bool-cases (ltb a.epoch x.epoch)) [
        | inl p ↦
            let h : a.epoch < x.epoch = ltb→lt _ _ p in
            rw p ((h, Later-weaken a.epoch x.epoch l (omega arith) later), (later, r))
        | inr p ↦ rw p (Later-insert x.epoch a l (ground arith) later, Rising-insert a l r n')
      ]
]

pub length-insert : (a : Alarm) (l : List Alarm) → length (insert a l) ≡ suc (length l)
length-insert a [] = refl
length-insert a (x ∷ l) = elim (Bool-cases (ltb a.epoch x.epoch)) [
  | inl p ↦ rw p refl
  | inr p ↦ rw p (ap suc (length-insert a l))
]

pub has_epoch_lem : (m : ℕ → Alarm) (e i n : ℕ) → has_epoch m e i n ≡ taken_time e (read m i n)
has_epoch_lem m e i zero = refl
has_epoch_lem m e i (suc n) =
    ap (λ b. if (m i).epoch == e then true else b) (has_epoch_lem m e (i + 1) n)

pub taken_time-append :
    (e : ℕ) (l k : List Alarm) → taken_time e (l ++ k) ≡ false → taken_time e l ≡ false
taken_time-append e [] k h = refl
taken_time-append e (x ∷ l) k h = elim (Bool-cases (x.epoch == e)) [
  | inl same ↦ absurd (ground arith)
  | inr other ↦
      let h' : taken_time e (l ++ k) ≡ false = rw other at h in
      rw other (taken_time-append e l k h')
]

-- A table fits its array, and its times rise.
pub record IsValid (t : Table) : Type 0 where
  pub fits : t.n_alarms ≤ max_watch_alarms
  pub rising : Rising (held t)

-- The alarm goes in, and the count tells it.
pub inserted-held :
    (t : Table) (a : Alarm)
    → IsValid t
    → t.n_alarms < max_watch_alarms
    → taken_time a.epoch (held t) ≡ false
    → (held (inserted t a t.n_alarms) ≡ insert a (held t)) × IsValid (inserted t a t.n_alarms)
inserted-held t a v room new =
    let more : (inserted t a t.n_alarms).n_alarms ≡ suc t.n_alarms = ground arith in
    let shown : held (inserted t a t.n_alarms) ≡ insert a (held t) =
      ap (read (inserted t a t.n_alarms).alarms 0) more
      ∙ insert-make_room t.alarms a t.n_alarms v.rising in
    (
      shown,
      record {
        fits = omega (arith, more);
        rising = subst Rising (sym shown) (Rising-insert a (held t) v.rising new);
      },
    )

-- In a full table the last alarm gives way to an earlier one.
pub replaced-held :
    (t : Table) (a : Alarm)
    → IsValid t
    → t.n_alarms ≡ max_watch_alarms
    → taken_time a.epoch (held t) ≡ false
    → a.epoch < (t.alarms 4).epoch
    → (held (inserted t a 4) ≡ take 5 (insert a (held t))) × IsValid (inserted t a 4)
replaced-held t a v full new early =
    let front = read t.alarms 0 4 in
    let shown : held t ≡ front ++ (t.alarms 4 ∷ []) =
      ap (read t.alarms 0) full ∙ read-last t.alarms 4 in
    let rising : Rising front =
      Rising-front front (t.alarms 4 ∷ []) (subst Rising shown v.rising) in
    let new' : taken_time a.epoch front ≡ false =
      taken_time-append a.epoch front (t.alarms 4 ∷ [])
        (ap (taken_time a.epoch) (sym shown) ∙ new) in
    let same : (inserted t a 4).n_alarms ≡ 5 = ground arith in
    let now_there : held (inserted t a 4) ≡ insert a front =
      ap (read (inserted t a 4).alarms 0) same ∙ insert-make_room t.alarms a 4 rising in
    let five : length (insert a front) ≡ 5 = length-insert a front in
    (
      now_there
          ∙ sym (take_all (insert a front) (t.alarms 4 ∷ []))
          ∙ ap (λ n. take n (insert a front ++ (t.alarms 4 ∷ []))) five
          ∙ ap (take 5) (sym (insert-later a (t.alarms 4) front early) ∙ ap (insert a) (sym shown)),
      record {
        fits = omega (arith, same);
        rising = subst Rising (sym now_there) (Rising-insert a front rising new');
      },
    )
