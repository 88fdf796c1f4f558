-- ===== src/State.antt =====
-- components/state_manager/src/state_manager.c: the time, the weather and the steps that the watch
-- keeps, and when it asks the phone for the time.
--
-- The alarms stand in the state until the alarm manager has their address; from then on they are its
-- table. `none` is a failed assertion. The time is an argument, `event_publish` of a request runs in
-- the rest of the firmware, `W`, and answers, and the addresses of the handlers are arguments.
pub mod Requests
pub mod Sync
mod Tests
use minimal_watch_firmware_e.Base.{
  ℕ, ◌+◌, ◌-◌, ◌*◌, Bool, true, false, not, ◌||◌, Option, none, some, ltb, leb, ◌==◌, if◌then◌else◌,
  u32, ◌>>=◌,
}
use minimal_watch_firmware_e.Common.{
  ReqType, update_system_time, update_system_weather, WeatherSync, HourlyWeather,
}
use minimal_watch_firmware_e.Wakelock.{pos}
use minimal_watch_firmware_e.Alarms
use minimal_watch_firmware_e.Alarms.{Table, Env, max_watch_alarms}
use minimal_watch_firmware_e.Events
use minimal_watch_firmware_e.Events.{Registry}

-- `time_sync_t`
pub record TimeSync : Type 0 where
  pub last_sync_time : ℕ
  pub valid : ℕ

-- `state_entry_t`
pub record StateEntry : Type 0 where
  pub last_req_time : ℕ
  pub request_pending : Bool

-- `state_registry_t`
pub record StateRegistry : Type 0 where
  pub time : StateEntry
  pub weather : StateEntry
  pub alarms : StateEntry

-- `watch_state_t`
pub record WatchState : Type 0 where
  pub time_state : TimeSync
  pub weather_state : WeatherSync
  pub alarms : Table
  pub steps : ℕ

-- `watch_state`, `state_registry`, and the alarm manager.
pub record State : Type 0 where
  pub watch_state : WatchState
  pub state_registry : StateRegistry
  pub alarm_manager : Alarms.Manager

-- All bytes zero.
abbrev pub no_entry : StateEntry
no_entry = record { last_req_time = 0; request_pending = false }

abbrev pub no_weather : WeatherSync
no_weather = record {
  expires_at = 0;
  hourly_today = λ i. record {
    temperature = pos 0;
    humidity = 0;
    precip_prob = 0;
    weather_code = 0;
    wind_speed = 0;
  };
}

abbrev pub no_alarms : Table
no_alarms = record {
  n_alarms = 0;
  alarms = λ i. record { epoch = 0; type = 0; sync_with_phone = false };
  valid = 0;
}

abbrev pub wiped : State → State
wiped s = record s {
  watch_state = record {
    time_state = record { last_sync_time = 0; valid = 0 };
    weather_state = no_weather;
    alarms = no_alarms;
    steps = 0;
  };
  state_registry = record { time = no_entry; weather = no_entry; alarms = no_entry };
}

-- `state_manager_get_epoch_time`
abbrev pub get_epoch_time : ℕ → WatchState → ℕ
get_epoch_time now w = if w.time_state.valid == 0 then 0 else u32 now

-- The three checks of `state_manager_init`.
abbrev pub check_time : State → State
check_time s = if not (s.watch_state.time_state.valid == 1) then wiped s else s

abbrev pub check_weather : ℕ → State → State
check_weather now s =
    if ltb s.watch_state.weather_state.expires_at (get_epoch_time now s.watch_state)
    then record s {
      watch_state = record s.watch_state { weather_state = no_weather };
      state_registry = record s.state_registry { weather = no_entry };
    }
    else s

abbrev pub check_alarms : State → State
check_alarms s =
    if not (s.watch_state.alarms.valid == 1) || ltb max_watch_alarms s.watch_state.alarms.n_alarms
    then record s {
      watch_state = record s.watch_state { alarms = record no_alarms { valid = 1 } };
      state_registry = record s.state_registry { alarms = no_entry };
    }
    else s

-- The addresses of the three handlers.
pub record Handlers : Type 0 where
  pub update_time : ℕ
  pub update_weather : ℕ
  pub update_steps : ℕ

abbrev pub must_subscribe : Registry → ℕ → ℕ → Option Registry
must_subscribe r event handler =
    let (success, r') = Events.subscribe r event handler in if success then some r' else none

-- The subscriptions, each with its assertion.
abbrev pub subscribe_all : Handlers → Registry → Option Registry
subscribe_all h r = do
  r1 ← must_subscribe r 9 h.update_time
  r2 ← must_subscribe r1 10 h.update_weather
  must_subscribe r2 13 h.update_steps

-- A request for the time was made.
abbrev pub requested : ℕ → State → State
requested now s = record s {
  state_registry = record s.state_registry {
    time = record { last_req_time = u32 now; request_pending = true };
  };
}

-- Whether `state_manager_check_validity` asks for the time.
abbrev pub fire_time_sync : ℕ → State → Bool
fire_time_sync now s =
    let waited = leb (5 * 60) (u32 (u32 now + 4294967296 - s.state_registry.time.last_req_time)) in
    if not (s.watch_state.time_state.valid == 0)
    then if ltb (60 * 60) (
        u32
          (get_epoch_time now s.watch_state + 4294967296 - s.watch_state.time_state.last_sync_time))
      then waited
      else false
    else waited

-- What the alarm manager gets from outside: the time comes from `state_manager_get_epoch_time`.
abbrev pub alarm_env : (clock : ℕ) → Env → WatchState → Env
alarm_env clock env w = record env { now = get_epoch_time clock w }

-- The entry for the time is written, and its request is complete.
abbrev pub took_time : ℕ → State → State
took_time epoch s = record s {
  watch_state = record s.watch_state { time_state = record { last_sync_time = epoch; valid = 1 } };
  state_registry = record s.state_registry { time = no_entry };
}

-- `settimeofday`, on the seconds of the system clock.
abbrev pub settimeofday : (tv_sec clock : ℕ) → ℕ
settimeofday tv_sec clock = tv_sec

-- `alarm_manager_revalidate` at the state and the clock that it finds; its answer is not looked at.
abbrev pub revalidated : Env → ℕ → State → State
revalidated env clock s = record s {
  alarm_manager = (Alarms.revalidate (alarm_env clock env s.watch_state) s.alarm_manager).1;
}

-- `update_time_state_cb`: whether the length is right, and the data, on the system clock and the
-- state; of `env` only the lock and the start of the alarms' timer count. It takes less than a
-- second, so that the alarm manager reads the clock as it was set.
unfoldable pub update_time_state_cb : Env → Bool → Option ℕ → ℕ × State → Option (ℕ × State)
update_time_state_cb env sized none (clock, s) = none
update_time_state_cb env sized (some epoch) (clock, s) =
    let s' = took_time epoch s in
    let clock' = settimeofday epoch clock in
    if sized then some (clock', revalidated env clock' s') else none

-- `update_weather_state_cb`
unfoldable pub update_weather_state_cb : Bool → Option WeatherSync → State → Option State
update_weather_state_cb sized none s = none
update_weather_state_cb sized (some weather') s =
    if sized
    then some (record s {
      watch_state = record s.watch_state { weather_state = weather' };
      state_registry = record s.state_registry { weather = no_entry };
    })
    else none

-- `update_steps_cb`
unfoldable pub update_steps_cb : Bool → Option ℕ → State → Option State
update_steps_cb sized none s = none
update_steps_cb sized (some new_steps) s =
    if sized
    then some (record s {
      watch_state = record s.watch_state { steps = u32 (s.watch_state.steps + new_steps) };
    })
    else none

module _ {ℓ} {W : Type ℓ} (event_publish : ReqType → W → Bool × W) where
  -- The two requests of `state_manager_init`.
  abbrev pub ask_for_all : ℕ → State → W → State × W
  ask_for_all now s w =
      let (success, w1) = event_publish update_system_time w in
      let (done, w2) = event_publish update_system_weather w1 in
      (if success then requested now s else s, w2)

  -- `state_manager_init` behind its checks.
  abbrev pub start_checked :
      Env → (timed created : Bool) → Handlers → Registry → W → State → Option (Registry × State × W)
  start_checked env timed created h r w s = do
    m ←
        Alarms.init (alarm_env env.now env s.watch_state) timed created (some s.watch_state.alarms)
          s.alarm_manager
    r' ← subscribe_all h r
    let asked = ask_for_all env.now (record s { alarm_manager = m }) w
    some (r', asked.0, asked.1)

  -- `state_manager_init`; `timed` and `created` say whether the alarms' timer and their mutex could be
  -- made.
  unfoldable pub init :
      Env → (timed created : Bool) → Handlers → Registry → State → W → Option (Registry × State × W)
  init env timed created h r s w =
      start_checked env timed created h r w (check_alarms (check_weather env.now (check_time s)))

  -- `state_manager_check_validity`: whether it asked, and what is left.
  unfoldable pub check_validity : ℕ → State → W → Bool × State × W
  check_validity now s w =
      if fire_time_sync now s
      then (true, requested now s, (event_publish update_system_time w).1)
      else (false, s, w)

abbrev pub written_back : Option Table → Table → Table
written_back none t = t
written_back (some t') t = t'

-- `state_manager_deinit`: the alarms stand in the state again.
unfoldable pub deinit : Handlers → Registry → State → Registry × State
deinit h r s =
    let r1 = (Events.unsubscribe r 9 h.update_time).1 in
    let r2 = (Events.unsubscribe r1 10 h.update_weather).1 in
    let back = written_back s.alarm_manager.table s.watch_state.alarms in
    (
      (Events.unsubscribe r2 13 h.update_steps).1,
      record s {
        watch_state = record s.watch_state { alarms = back };
        alarm_manager = Alarms.deinit s.alarm_manager;
      },
    )

-- `state_manager_get_weather_today`
abbrev pub get_weather_today : State → ℕ → HourlyWeather
get_weather_today s = s.watch_state.weather_state.hourly_today

-- `state_manager_get_step_count`
abbrev pub get_step_count : State → ℕ
get_step_count s = s.watch_state.steps
