-- ===== src/State/Sync.antt =====
-- The time that the phone sends, and the start of a watch without one.
use mathlib.Core.Path.{subst}
use minimal_watch_firmware_e.Base.{
  ℕ, ◌≡◌, ◌∙◌, refl, sym, ap, Bool, true, false, Option, some, [], arith, ◌>>=◌, ◌==◌,
  if◌then◌else◌,
}
use minimal_watch_firmware_e.Common.{ReqType, update_system_time}
use minimal_watch_firmware_e.Alarms
use minimal_watch_firmware_e.Alarms.{Env}
use minimal_watch_firmware_e.Alarms.Create.{Shows}
use minimal_watch_firmware_e.Alarms.Init.{init_refines}
use minimal_watch_firmware_e.Events.{Registry}
use minimal_watch_firmware_e.State.{
  State, get_epoch_time, Handlers, subscribe_all, init, no_weather, no_alarms, wiped, check_time,
  check_weather, check_alarms, requested, start_checked, ask_for_all, alarm_env,
}

-- What the checks leave of a state without a time.
abbrev blank : State → State
blank s = record (wiped s) {
  watch_state = record (wiped s).watch_state { alarms = record no_alarms { valid = 1 } };
}

check_lem :
    (now : ℕ) (s : State)
    → s.watch_state.time_state.valid ≡ 0
    → check_alarms (check_weather now (check_time s)) ≡ blank s
check_lem now s off = rw (invalid s.watch_state.time_state.valid off) refl
  where
    invalid : (n : ℕ) → n ≡ 0 → (n == 1) ≡ false
    invalid n e = ground arith

-- A request changes only the registry.
requested_lem :
    (now : ℕ) (s : State) (success : Bool)
    → s.state_registry.time.request_pending ≡ false
    → ((if success then requested now s else s).watch_state ≡ s.watch_state)
      × ((if success then requested now s else s).alarm_manager ≡ s.alarm_manager)
      × ((if success then requested now s else s).state_registry.time.request_pending ≡ success)
requested_lem now s true e = (refl, refl, refl)
requested_lem now s false e = (refl, refl, e)

module _ {ℓ} {W : Type ℓ} (event_publish : ReqType → W → Bool × W) where
  -- From a state without a valid time, if the timer and the mutex of the alarms can be made and the
  -- three handlers can be subscribed: `state_manager_init` returns, with no alarms, no steps, no weather and the time
  -- 0, and the request for the time is pending exactly if `event_publish` took it.
  pub cold_boot :
      (env : Env) (h : Handlers) (r r' : Registry) (s : State) (w : W)
      → s.watch_state.time_state.valid ≡ 0
      → subscribe_all h r ≡ some r'
      → (s' : State) × (w' : W) × (init event_publish env true true h r s w ≡ some (r', s', w'))
        × Shows s'.alarm_manager []
        × (s'.watch_state.steps ≡ 0)
        × (s'.watch_state.weather_state ≡ no_weather)
        × (get_epoch_time env.now s'.watch_state ≡ 0)
        × (s'.state_registry.time.request_pending ≡ (event_publish update_system_time w).0)
  unfolding init
  cold_boot env h r r' s w off e =
      let (m, ran, shown, timer) =
        init_refines (alarm_env env.now env (blank s).watch_state) (record no_alarms { valid = 1 })
          s.alarm_manager (omega arith) tt in
      let s0 : State = record (blank s) { alarm_manager = m } in
      let (same, kept, pending) =
        requested_lem env.now s0 (event_publish update_system_time w).0 refl in
      let answer : Alarms.Manager → Registry → Option (Registry × State × W) = (λ m r'. some (
        r',
        (ask_for_all event_publish env.now (record (blank s) { alarm_manager = m }) w).0,
        (ask_for_all event_publish env.now (record (blank s) { alarm_manager = m }) w).1,
      )) in
      (
        (ask_for_all event_publish env.now s0 w).0,
        (ask_for_all event_publish env.now s0 w).1,
        ap (start_checked event_publish env true true h r w) (check_lem env.now s off)
            ∙ ap (λ o. o >>= λ m. subscribe_all h r >>= answer m) ran
            ∙ ap (λ o. o >>= answer m) e,
        subst (λ a. Shows a []) (sym kept) shown,
        ap (λ a. a.steps) same,
        ap (λ a. a.weather_state) same,
        ap (get_epoch_time env.now) same,
        pending,
      )
