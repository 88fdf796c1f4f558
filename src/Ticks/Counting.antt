-- ===== src/Ticks/Counting.antt =====
-- The ticks of components/tick_manager/src/tick_manager.c that come with every n-th tick of work,
-- against division.
use minimal_watch_firmware_e.Base.{
  ℕ, ◌+◌, ◌/◌, ◌%◌, ◌≡◌, refl, ap, ◌∙◌, ◌<◌, List, [], ◌∷◌, ◌++◌, arith, leb, u32, length, inl, inr,
  Bool-cases,
}
use minimal_watch_firmware_e.Ticks.{
  work, TickEvent, watchface_update, work_tick, sensor_tick, Timers, Ticks, dep_tick_registry,
  count_dependents, tick_event_cb,
}

abbrev pub is_sensor : TickEvent → ℕ
is_sensor sensor_tick = 1
is_sensor work_tick = 0
is_sensor watchface_update = 0

abbrev pub is_work : TickEvent → ℕ
is_work sensor_tick = 0
is_work work_tick = 1
is_work watchface_update = 0

abbrev pub how_many : (TickEvent → ℕ) → List TickEvent → ℕ
how_many f [] = 0
how_many f (x ∷ l) = f x + how_many f l

how_many-append :
    (f : TickEvent → ℕ) (xs ys : List TickEvent)
    → how_many f (xs ++ ys) ≡ how_many f xs + how_many f ys
how_many-append f [] ys = omega arith
how_many-append f (x ∷ xs) ys = omega (arith, how_many-append f xs ys)

counted_once :
    (c : ℕ)
    → c < 60
    → ((count_dependents dep_tick_registry (c ∷ [])).0 ≡ ((c + 1) % 60) ∷ [])
      × (0 + how_many is_sensor (count_dependents dep_tick_registry (c ∷ [])).1 ≡ (c + 1) / 60)
      × (1 + how_many is_work (count_dependents dep_tick_registry (c ∷ [])).1 ≡ 1)
unfolding count_dependents
counted_once c h = elim (Bool-cases (leb 60 (u32 (c + 1)))) [
  | inl full ↦
      let last : c ≡ 59 = ground arith in
      rw full (ap (λ (n : ℕ). n ∷ []) (omega arith), omega arith, omega arith)
  | inr more ↦
      let room : c < 59 = ground arith in
      rw more (ap (λ (n : ℕ). n ∷ []) (omega arith), omega arith, omega arith)
]

module _ {api : Timers} where
  -- Work ticks at some times, one after the other.
  unfoldable pub work_ticks : List ℕ → Ticks api → Ticks api × List TickEvent
  work_ticks [] s = (s, [])
  work_ticks (now ∷ times) s =
      let (s1, events) = tick_event_cb api now work s in
      let (s2, later) = work_ticks times s1 in (s2, events ++ later)

  one_tick :
      (now c : ℕ) (s : Ticks api)
      → c < 60
      → s.dep_ticks_counter ≡ c ∷ []
      → ((tick_event_cb api now work s).0.dep_ticks_counter ≡ ((c + 1) % 60) ∷ [])
        × (how_many is_sensor (tick_event_cb api now work s).1 ≡ (c + 1) / 60)
        × (how_many is_work (tick_event_cb api now work s).1 ≡ 1)
  unfolding tick_event_cb count_dependents
  one_tick now c s h e = rw e (counted_once c h)

  -- From a count below 60, after any work ticks: the count is the sum of the count and the number of
  -- ticks, modulo 60, EVENT_SENSOR_TICK was published as often as 60 goes into that sum, and
  -- EVENT_WORK_TICK once for each tick.
  pub work_ticks_lem :
      (times : List ℕ) (c : ℕ) (s : Ticks api)
      → c < 60
      → s.dep_ticks_counter ≡ c ∷ []
      → ((work_ticks times s).0.dep_ticks_counter ≡ ((c + length times) % 60) ∷ [])
        × (how_many is_sensor (work_ticks times s).1 ≡ (c + length times) / 60)
        × (how_many is_work (work_ticks times s).1 ≡ length times)
  unfolding work_ticks
  work_ticks_lem [] c s h e = (e ∙ ap (λ (n : ℕ). n ∷ []) (omega arith), omega arith, refl)
  work_ticks_lem (now ∷ times) c s h e =
      let (count, sensor, work_count) = one_tick now c s h e in
      let s1 = (tick_event_cb api now work s).0 in
      let events = (tick_event_cb api now work s).1 in
      let later = (work_ticks times s1).1 in
      let (rest, sensors, works) = work_ticks_lem times ((c + 1) % 60) s1 (omega arith) count in
      (
        rest ∙ ap (λ (n : ℕ). n ∷ []) (omega arith),
        omega (arith, how_many-append is_sensor events later),
        omega (arith, how_many-append is_work events later),
      )
