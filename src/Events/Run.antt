-- ===== src/Events/Run.antt =====
-- Histories of subscriptions of event_manager.c, against a map from events to lists of handlers.
use minimal_watch_firmware_e.Base.{
  ℕ, ◌≡◌, ◌∙◌, refl, sym, ap, ap₂, inl, inr, Bool, true, false, not, ◌||◌, List, [], ◌∷◌, arith,
  Bool-cases, leb, ◌==◌, if◌then◌else◌, store,
}
use minimal_watch_firmware_e.Events.{
  Registry, event_count, refused, init, deinit, subscribe, unsubscribe,
}
use minimal_watch_firmware_e.Events.Table.{subscribed, IsValid}
use minimal_watch_firmware_e.Events.Subscribe.{
  add_to, drop_from, Changed, subscribe_refines, unsubscribe_refines,
}

pub data Op : Type 0 where
  subscribes unsubscribes : ℕ → ℕ → Op
  inits deinits : Op

-- Whether the manager is on, and the handlers of each event.
abbrev pub Book : Type 0
Book = Bool × (ℕ → List ℕ)

abbrev pub view : Registry → Book
view r = (r.initialized, subscribed r)

abbrev pub turned_away : Book → ℕ → ℕ → Bool
turned_away b e h = not b.0 || h == 0 || leb event_count e

-- One event's list goes through `f`.
abbrev pub at_event : Book → (List ℕ → ℕ → Bool × List ℕ) → ℕ → ℕ → Bool × Book
at_event b f e h =
    if turned_away b e h then (false, b) else ((f (b.1 e) h).0, (b.0, store b.1 e (f (b.1 e) h).1))

abbrev pub spec_step : Book → Op → Bool × Book
spec_step b (subscribes e h) = at_event b add_to e h
spec_step b (unsubscribes e h) = at_event b drop_from e h
spec_step b inits = (true, (true, λ _. []))
spec_step b deinits = (true, (false, λ _. []))

abbrev pub spec_run : Book → List Op → List Bool × Book
spec_run b [] = ([], b)
spec_run b (op ∷ ops) =
    let (reply, b') = spec_step b op in
    let (replies, last) = spec_run b' ops in (reply ∷ replies, last)

abbrev pub step : Registry → Op → Bool × Registry
step r (subscribes e h) = subscribe r e h
step r (unsubscribes e h) = unsubscribe r e h
step r inits = init r
step r deinits = (true, deinit r)

abbrev pub run : Registry → List Op → List Bool × Registry
run r [] = ([], r)
run r (op ∷ ops) =
    let (reply, r') = step r op in let (replies, last) = run r' ops in (reply ∷ replies, last)

-- `event_manager_init`, which returns true, and `event_manager_deinit` leave a valid table with no subscription, on or off.
pub init-IsValid :
    (r : Registry)
    → ((init r).0 ≡ true)
      × IsValid (init r).1
      × (view (init r).1 ≡ (true, λ _. []))
      × IsValid (deinit r)
      × (view (deinit r) ≡ (false, λ _. []))
unfolding init deinit
init-IsValid r = (
  refl,
  record { fits = λ e. omega arith; proper = λ e. tt },
  refl,
  record { fits = λ e. omega arith; proper = λ e. tt },
  refl,
)

Changed-view :
    {r r' : Registry} {e : ℕ} {l : List ℕ}
    → Changed r e l r'
    → view r' ≡ (r.initialized, store (subscribed r) e l)
Changed-view {r} {r'} {e} {l} c =
    ap₂ (λ (a : Bool) (b : ℕ → List ℕ). (a, b)) c.still (λ i k. c.lists k i)

taken_in :
    (b : Book) (f : List ℕ → ℕ → Bool × List ℕ) (e h : ℕ)
    → turned_away b e h ≡ false
    → at_event b f e h ≡ ((f (b.1 e) h).0, (b.0, store b.1 e (f (b.1 e) h).1))
taken_in b f e h ok = rw ok refl

-- A call that did to event `e`'s list what `f` does.
accepted :
    (r : Registry) (f : List ℕ → ℕ → Bool × List ℕ) (e h : ℕ) (out : Bool × Registry)
    → refused r e h ≡ false
    → out.0 ≡ (f (subscribed r e) h).0
    → Changed r e (f (subscribed r e) h).1 out.1
    → (out.0 ≡ (at_event (view r) f e h).0)
      × IsValid out.1
      × (view out.1 ≡ (at_event (view r) f e h).1)
accepted r f e h out ok a c =
    let t = taken_in (view r) f e h ok in
    (
      a ∙ ap (λ (x : Bool × Book). x.0) (sym t),
      c.valid,
      Changed-view c ∙ ap (λ (x : Bool × Book). x.1) (sym t),
    )

step_refines :
    (r : Registry) (op : Op)
    → IsValid r
    → ((step r op).0 ≡ (spec_step (view r) op).0)
      × IsValid (step r op).1
      × (view (step r op).1 ≡ (spec_step (view r) op).1)
unfolding subscribe unsubscribe
step_refines r (subscribes e h) v = elim (Bool-cases (refused r e h)) [
  | inl out ↦ rw out (refl, v, refl)
  | inr ok ↦
      let (a, c) = subscribe_refines r e h v ok in accepted r add_to e h (subscribe r e h) ok a c
]
step_refines r (unsubscribes e h) v = elim (Bool-cases (refused r e h)) [
  | inl out ↦ rw out (refl, v, refl)
  | inr ok ↦
      let (a, c) = unsubscribe_refines r e h v ok in
      accepted r drop_from e h (unsubscribe r e h) ok a c
]
step_refines r inits v = let (z, a, b, c, d) = init-IsValid r in (z, a, b)
step_refines r deinits v = let (z, a, b, c, d) = init-IsValid r in (refl, c, d)

-- From a valid table, every history of starts, stops, subscriptions and cancellations gets the replies
-- that the map from events to lists gives, and ends in a valid table with the lists of the map.
pub run_calls :
    (r : Registry) (ops : List Op)
    → IsValid r
    → ((run r ops).0 ≡ (spec_run (view r) ops).0)
      × IsValid (run r ops).1
      × (view (run r ops).1 ≡ (spec_run (view r) ops).1)
run_calls r [] v = (refl, v, refl)
run_calls r (op ∷ ops) v =
    let (a, v1, b) = step_refines r op v in
    let (c, v2, d) = run_calls (step r op).1 ops v1 in
    (ap₂ ◌∷◌ a (c ∙ ap (λ k. (spec_run k ops).0) b), v2, d ∙ ap (λ k. (spec_run k ops).1) b)
