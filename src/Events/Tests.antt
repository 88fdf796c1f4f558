-- ===== src/Events/Tests.antt =====
-- Runs of event_manager.c at concrete tables.
use minimal_watch_firmware_e.Base.{ℕ, ◌≡◌, refl, Bool, true, some, List, [], ◌∷◌, arith, store}
use minimal_watch_firmware_e.Events.{Event, Registry, unsubscribe, publish, publish_loop}
use minimal_watch_firmware_e.Events.Table.{IsValid}
use minimal_watch_firmware_e.Events.Deliver.{publish_returns, publish_delivers}
use minimal_watch_firmware_e.Events.Run
use minimal_watch_firmware_e.Events.Run.{
  Op, subscribes, unsubscribes, inits, deinits, view, init-IsValid,
}

abbrev two : List ℕ
two = 100 ∷ 200 ∷ []

-- Two handlers, 100 and 200, for event 3.
abbrev table : Registry
table = record {
  subscriptions = λ e. record { handlers = store (store (λ _. 0) 0 100) 1 200; count = 2 };
  initialized = true;
}

table-IsValid : IsValid table
table-IsValid = record { fits = λ e. omega arith; proper = λ e. (refl, refl, (refl, refl, tt)) }

abbrev tick : Event
tick = record { ev = 3; payload_len = 0; «data» = 0 }

-- A handler notes its address.
abbrev note_call : ℕ → Event → List ℕ → Registry → List ℕ × Registry
note_call h event w r = (h ∷ w, r)

-- Handler 100 cancels its own subscription while it runs, and 200 is then not called.
abbrev cancelling : ℕ → Event → List ℕ → Registry → List ℕ × Registry
cancelling h event w r = (h ∷ w, (unsubscribe r event.ev 100).1)

skipped : (r' : Registry) × (publish cancelling (some tick) [] table ≡ some (true, 100 ∷ [], r'))
unfolding publish publish_loop unsubscribe
skipped = (_, refl)

publish_returns_example :
    (done : Bool) × (w' : List ℕ) × (r' : Registry) × (publish note_call (some tick) [] table
      ≡ some (done, w', r'))
    × IsValid r'
publish_returns_example =
    publish_returns note_call (some tick) [] table (λ h e v k valid. valid) table-IsValid

publish_delivers_example :
    publish note_call (some tick) [] table ≡ some (true, 200 ∷ 100 ∷ [], table)
publish_delivers_example =
    publish_delivers note_call tick [] table (λ h v. refl) table-IsValid refl (omega arith)

run_calls_example :
    ((Run.run table (subscribes 3 300 ∷ unsubscribes 3 100 ∷ [])).0
      ≡ (Run.spec_run (view table) (subscribes 3 300 ∷ unsubscribes 3 100 ∷ [])).0)
    × IsValid (Run.run table (subscribes 3 300 ∷ unsubscribes 3 100 ∷ [])).1
    × (view (Run.run table (subscribes 3 300 ∷ unsubscribes 3 100 ∷ [])).1
        ≡ (Run.spec_run (view table) (subscribes 3 300 ∷ unsubscribes 3 100 ∷ [])).1)
run_calls_example = Run.run_calls table (subscribes 3 300 ∷ unsubscribes 3 100 ∷ []) table-IsValid
