-- ===== src/Alarms.antt =====
-- components/state_manager/src/alarm_manager.c: at most five alarms in the order of their times, and
-- the timer for the first of them.
--
-- What a call gets from outside is its environment: the time, whether the lock was taken within
-- 100 ms, and whether the timer could be started. A negative index is `none`. `none` as a result is a
-- failed assertion.
pub mod Lists
pub mod Create
pub mod Remove
pub mod Edit
pub mod Timer
pub mod Init
mod Tests
use minimal_watch_firmware_e.Base.{
  ℕ, zero, suc, ◌+◌, ◌-◌, ◌*◌, Bool, true, false, not, ◌&&◌, ◌||◌, Option, none, some, List, [],
  ◌∷◌, ltb, leb, ◌==◌, if◌then◌else◌, u8, u32, store, memmove, read, ◌>>=◌,
}

-- `alarm_t`
pub record Alarm : Type 0 where
  pub epoch : ℕ
  pub type : ℕ
  pub sync_with_phone : Bool

-- `alarm_sync_t`
pub record Table : Type 0 where
  pub n_alarms : ℕ
  pub alarms : ℕ → Alarm
  pub valid : ℕ

-- MAX_WATCH_ALARMS
abbrev pub max_watch_alarms : ℕ
max_watch_alarms = 5

-- ALARM_BUFFER_SEC
abbrev pub alarm_buffer_sec : ℕ
alarm_buffer_sec = 5

-- A timer that runs: when it was started, and after how many microseconds it fires.
pub record Running : Type 0 where
  pub since : ℕ
  pub timeout_us : ℕ

-- `alarms`, `alarm_timer` (whether it exists, and whether it runs) and `alarm_mutex`.
pub record Manager : Type 0 where
  pub table : Option Table
  pub timer : Bool
  pub running : Option Running
  pub mutex : Bool

pub record Env : Type 0 where
  pub now : ℕ
  pub locked : Bool
  pub started : Bool

-- How many of the `n` alarms from `i` on are due up to `limit`, before the first that is not.
abbrev pub count_due : (ℕ → Alarm) → ℕ → ℕ → ℕ → ℕ
count_due m limit i zero = 0
count_due m limit i (suc n) = if leb (m i).epoch limit then suc (count_due m limit (i + 1) n) else 0

-- `discard_expired_alarms`, on a table that is there.
abbrev pub discard_expired : ℕ → Table → Table
discard_expired now t =
    let valid_idx = count_due t.alarms (u32 (now + alarm_buffer_sec)) 0 t.n_alarms in
    let remaining = t.n_alarms - valid_idx in
    if valid_idx == 0
    then t
    else record t { n_alarms = remaining; alarms = memmove t.alarms 0 valid_idx remaining }

-- The time from `now` until the timer fires for an alarm.
abbrev pub timeout_for : ℕ → ℕ → ℕ
timeout_for now target =
    if ltb (u32 (now + alarm_buffer_sec)) target
    then u32 (target + 4294967296 - now) * 1000000
    else 5 * 1000000

abbrev pub stop_timer : Manager → Manager
stop_timer s = record s { running = none }

abbrev pub start_timer : Env → ℕ → Manager → Manager
start_timer env target s = record s {
  running =
      if env.started
      then some (record { since = env.now; timeout_us = timeout_for env.now target })
      else none;
}

-- `schedule_next_alarm_internal`, on a table that is there.
abbrev pub schedule_next : Env → Table → Manager → Manager
schedule_next env t s =
    if t.n_alarms == 0 || not s.timer then s else start_timer env (t.alarms 0).epoch s

abbrev pub put_table : Manager → Table → Manager
put_table s t = record s { table = some t }

-- Whether a call that takes the lock goes on.
abbrev pub refused : Env → Manager → Bool
refused env s = s.mutex && not env.locked

-- `alarm_manager_revalidate`
unfoldable pub revalidate : Env → Manager → Bool × Manager
revalidate env s = elim s.table [
  | none ↦ (false, s)
  | some t ↦
      let t' = discard_expired env.now t in
      if not s.timer || refused env s then (false, s) else (
        true,
        if ltb 0 t'.n_alarms
            then schedule_next env t' (put_table s t')
            else stop_timer (put_table s t'),
      )
]

-- `alarm_manager_get_all_alarms`: the count, and what is copied to the buffer, which `given` says is
-- not null.
unfoldable pub get_all : Bool → Env → Manager → ℕ × List Alarm
get_all given env s = if not s.mutex || not given || not env.locked then (0, []) else elim s.table [
  | none ↦ (0, [])
  | some t ↦
      if ltb max_watch_alarms t.n_alarms then (0, []) else (t.n_alarms, read t.alarms 0 t.n_alarms)
]

-- The search for an alarm at the same time, over the `n` cells from `i` on.
abbrev pub has_epoch : (ℕ → Alarm) → ℕ → ℕ → ℕ → Bool
has_epoch m epoch i zero = false
has_epoch m epoch i (suc n) = if (m i).epoch == epoch then true else has_epoch m epoch (i + 1) n

-- The loop that moves later alarms up, from `insert_idx + 1` down; it also returns `insert_idx + 1`.
abbrev pub make_room : (ℕ → Alarm) → ℕ → ℕ → (ℕ → Alarm) × ℕ
make_room m epoch zero = (m, 0)
make_room m epoch (suc i) =
    let moved = make_room (store m (suc i) (m i)) epoch i in
    if ltb epoch (m i).epoch then moved else (m, suc i)

-- The alarm goes in among the first `count`, and is counted if there is room.
abbrev pub inserted : Table → Alarm → ℕ → Table
inserted t a count =
    let (m, idx) = make_room t.alarms a.epoch count in
    record t {
      n_alarms = if ltb t.n_alarms max_watch_alarms then t.n_alarms + 1 else t.n_alarms;
      alarms = store m idx a;
    }

abbrev pub insert_alarm : Env → Table → Alarm → ℕ → Manager → Manager
insert_alarm env t a count s =
    let s' = put_table s (inserted t a count) in
    if (make_room t.alarms a.epoch count).1 == 0
    then schedule_next env (inserted t a count) s'
    else s'

-- The guards on the time of a new alarm.
abbrev pub in_past : ℕ → ℕ → Bool
in_past now epoch = leb epoch now || leb (u32 (epoch + 4294967296 - now)) alarm_buffer_sec

abbrev pub too_far : ℕ → ℕ → Bool
too_far now epoch = ltb 31536000 (u32 (epoch + 4294967296 - now))

abbrev pub create_in : Env → Table → Alarm → Manager → Bool × Manager
create_in env t a s =
    if refused env s
      || in_past env.now a.epoch
      || too_far env.now a.epoch
      || has_epoch t.alarms a.epoch 0 t.n_alarms
    then (false, s)
    else if t.n_alarms == max_watch_alarms
    then (if leb (t.alarms (max_watch_alarms - 1)).epoch a.epoch
        then (false, s)
        else (true, insert_alarm env t a (max_watch_alarms - 1) s))
    else (true, insert_alarm env t a t.n_alarms s)

-- `alarm_manager_create_alarm`
unfoldable pub create : Env → Option Alarm → Manager → Option (Bool × Manager)
create env none s = some (false, s)
create env (some a) s = elim s.table [
  | none ↦ some (false, s)
  | some t ↦ if leb t.n_alarms max_watch_alarms then some (create_in env t a s) else none
]

-- The alarm at an index goes, and those behind it move up.
abbrev pub without : Table → ℕ → Table
without t index = record t {
  n_alarms = t.n_alarms - 1;
  alarms = memmove t.alarms index (index + 1) (t.n_alarms - 1 - index);
}

abbrev pub after_delete : Env → Table → ℕ → Manager → Manager
after_delete env t' index s =
    if index == 0 then (if ltb 0 t'.n_alarms then schedule_next env t' s else stop_timer s) else s

-- `alarm_manager_delete_alarm`
unfoldable pub delete : Env → Option ℕ → Manager → Bool × Manager
delete env none s = (false, s)
delete env (some index) s = elim s.table [
  | none ↦ (false, s)
  | some t ↦
      if refused env s || leb t.n_alarms index
      then (false, s)
      else (true, after_delete env (without t index) index (put_table s (without t index)))
]

-- `alarm_manager_edit_alarm` with an alarm that is not null, on a table that is there. It takes the
-- lock four times, each in its own environment: for the look at the old alarm, for
-- `alarm_manager_delete_alarm`, for `alarm_manager_create_alarm`, and for the same again to roll back.
abbrev pub edit_in : Env → Env → Env → Env → Table → ℕ → Alarm → Manager → Option (Bool × Manager)
edit_in look del add back t index new s =
    let (deleted, s1) = delete del (some index) s in
    let change = do
      (created, s2) ← create add (some new) s1
      let roll_back = do (restored, s3) ← create back (some (t.alarms index)) s2; some (false, s3)
      if created then some (true, s2) else roll_back
    in if refused look s || leb t.n_alarms index
      then some (false, s)
      else if not deleted
      then some (false, s1)
      else change

unfoldable pub edit : Env → Env → Env → Env → Option ℕ → Alarm → Manager → Option (Bool × Manager)
edit look del add back none new s = some (false, s)
edit look del add back (some index) new s = elim s.table [
  | none ↦ some (false, s)
  | some t ↦ edit_in look del add back t index new s
]

-- `alarm_fired_cb`, when the timer has fired; the option is the alarm that is published.
unfoldable pub fired : Env → Manager → Option Alarm × Manager
fired env s = elim s.table [
  | none ↦ (none, stop_timer s)
  | some t ↦ if not s.mutex || not env.locked || t.n_alarms == 0 then (none, stop_timer s) else (
    some (t.alarms 0),
    if ltb 0 (without t 0).n_alarms
        then schedule_next env (without t 0) (put_table (stop_timer s) (without t 0))
        else put_table (stop_timer s) (without t 0),
  )
]

-- `qsort` by time; the order of alarms at the same time is not promised.
abbrev pub qsort : (ℕ → Alarm) → ℕ → ℕ → Alarm
qsort m zero = m
qsort m (suc n) = let (m', idx) = make_room (qsort m n) (m n).epoch n in store m' idx (m n)

-- `alarm_manager_init`: `timed` says whether the timer could be made, and `created` whether the mutex
-- could; without one of them the firmware aborts.
unfoldable pub init : Env → (timed created : Bool) → Option Table → Manager → Option Manager
init env timed created none s = none
init env timed created (some t) s =
    let t' = discard_expired env.now (record t { alarms = qsort t.alarms t.n_alarms }) in
    let s' : Manager = record { table = some t'; timer = true; running = none; mutex = true } in
    if leb t.n_alarms max_watch_alarms && timed && created
    then some (if ltb 0 t'.n_alarms then schedule_next env t' s' else s')
    else none

-- `alarm_manager_deinit`
unfoldable pub deinit : Manager → Manager
deinit s = record { table = none; timer = false; running = none; mutex = false }
