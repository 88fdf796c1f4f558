-- ===== src/Events.antt =====
-- components/event_manager/src/event_manager.c: subscriptions to events, and their delivery.
--
-- A handler is a number, its address, and 0 is the null pointer. What a handler does is not known
-- here: `call` runs it on an event, in a world `W` of the rest of the firmware, and it may use the
-- event manager itself. `none` is a loop that ran out of fuel.
pub mod Table
pub mod Subscribe
pub mod Deliver
pub mod Run
mod Tests
use minimal_watch_firmware_e.Base.{
  ℕ, zero, suc, ◌+◌, ◌-◌, Bool, true, false, not, ◌||◌, Option, none, some, ltb, leb, ◌==◌,
  if◌then◌else◌, u8, store, ◌>>=◌,
}

-- EVENT_COUNT
abbrev pub event_count : ℕ
event_count = 14

-- MAX_EVENT_SUBSCRIBERS
abbrev pub max_event_subscribers : ℕ
max_event_subscribers = 8

-- `event_t`
pub record Event : Type 0 where
  pub ev : ℕ
  pub payload_len : ℕ
  pub «data» : ℕ

-- `event_subscription_t`
pub record Subscription : Type 0 where
  pub handlers : ℕ → ℕ
  pub count : ℕ

-- `subscriptions` and `initialized`
pub record Registry : Type 0 where
  pub subscriptions : ℕ → Subscription
  pub initialized : Bool

-- All bytes zero.
abbrev pub cleared_subscription : Subscription
cleared_subscription = record { handlers = λ _. 0; count = 0 }

unfoldable pub init : Registry → Bool × Registry
init r = (true, record { subscriptions = λ _. cleared_subscription; initialized = true })

unfoldable pub deinit : Registry → Registry
deinit r = record { subscriptions = λ _. cleared_subscription; initialized = false }

-- The index of the first of the `n` cells from `i` on that holds the handler.
abbrev pub find : (ℕ → ℕ) → ℕ → ℕ → ℕ → Option ℕ
find m handler i zero = none
find m handler i (suc n) = if m i == handler then some i else find m handler (i + 1) n

-- The guard that `event_subscribe` and `event_unsubscribe` share.
abbrev pub refused : Registry → ℕ → ℕ → Bool
refused r event_id handler = not r.initialized || handler == 0 || leb event_count event_id

abbrev pub put_subscription : Registry → ℕ → Subscription → Registry
put_subscription r event_id sub = record r { subscriptions = store r.subscriptions event_id sub }

-- `sub->handlers[sub->count++] = handler`
abbrev pub added : Subscription → ℕ → Subscription
added sub handler = record {
  handlers = store sub.handlers sub.count handler;
  count = u8 (sub.count + 1);
}

-- The duplicate check, and then the check for a free slot.
abbrev pub subscribe_at : Registry → ℕ → ℕ → Option ℕ → Bool × Registry
subscribe_at r event_id handler (some i) = (true, r)
subscribe_at r event_id handler none =
    if leb max_event_subscribers (r.subscriptions event_id).count
    then (false, r)
    else (true, put_subscription r event_id (added (r.subscriptions event_id) handler))

-- `event_subscribe`
unfoldable pub subscribe : Registry → ℕ → ℕ → Bool × Registry
subscribe r event_id handler =
    if refused r event_id handler
    then (false, r)
    else let sub = r.subscriptions event_id in
      subscribe_at r event_id handler (find sub.handlers handler 0 sub.count)

-- Each of `n` cells from `j` on takes the value of the next.
abbrev pub shift : (ℕ → ℕ) → ℕ → ℕ → ℕ → ℕ
shift m j zero = m
shift m j (suc n) = shift (store m j (m (j + 1))) (j + 1) n

-- The handler at `i` goes, and those behind it move up.
abbrev pub removed : Subscription → ℕ → Subscription
removed sub i = record {
  handlers = store (shift sub.handlers i (sub.count - 1 - i)) (u8 (sub.count + 255)) 0;
  count = u8 (sub.count + 255);
}

abbrev pub unsubscribe_at : Registry → ℕ → Option ℕ → Bool × Registry
unsubscribe_at r event_id none = (false, r)
unsubscribe_at r event_id (some i) =
    (true, put_subscription r event_id (removed (r.subscriptions event_id) i))

-- `event_unsubscribe`
unfoldable pub unsubscribe : Registry → ℕ → ℕ → Bool × Registry
unsubscribe r event_id handler =
    if refused r event_id handler
    then (false, r)
    else let sub = r.subscriptions event_id in
      unsubscribe_at r event_id (find sub.handlers handler 0 sub.count)

module _ {ℓ} {W : Type ℓ} (call : ℕ → Event → W → Registry → W × Registry) where
  -- The loop of `event_publish`, which reads the subscription afresh in each round.
  unfoldable pub publish_loop : ℕ → ℕ → Event → W → Registry → Option (W × Registry)
  publish_loop zero i event w r = none
  publish_loop (suc fuel) i event w r =
      let sub = r.subscriptions event.ev in
      let (w', r') = call (sub.handlers i) event w r in
      let rest = publish_loop fuel (u8 (i + 1)) event w' r' in
      if ltb i sub.count then rest else some (w, r)

  -- `event_publish`; none for the null pointer.
  unfoldable pub publish : Option Event → W → Registry → Option (Bool × W × Registry)
  publish none w r = some (false, w, r)
  publish (some event) w r =
      if not r.initialized || leb event_count event.ev
      then some (false, w, r)
      else do (w', r') ← publish_loop (max_event_subscribers + 1) 0 event w r; some (true, w', r')
