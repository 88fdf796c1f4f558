-- ===== src/Events/Deliver.antt =====
-- `event_publish`: it returns, and it calls the handlers in the order of their subscription.
use minimal_watch_firmware_e.Base.{
  ℕ, zero, suc, ◌+◌, ◌-◌, ◌≤◌, ◌<◌, ◌≡◌, refl, inl, inr, Bool, true, false, not, ◌||◌, Option, none,
  some, List, [], ◌∷◌, arith, Bool-cases, ltb, leb, ltb→lt, lt→ltb, le→ltb, read, u8,
}
use minimal_watch_firmware_e.Events.{Event, Registry, event_count, publish_loop, publish}
use minimal_watch_firmware_e.Events.Table.{subscribed, IsValid}

-- The handlers of a list run one after the other, each in the world that the one before it left and
-- with the same table.
abbrev pub deliver {ℓ} :
    {W : Type ℓ} → (ℕ → Event → W → Registry → W × Registry) → Event → Registry → W → List ℕ → W
deliver call event r w [] = w
deliver call event r w (h ∷ hs) = deliver call event r (call h event w r).0 hs

module _ {ℓ} {W : Type ℓ} (call : ℕ → Event → W → Registry → W × Registry) where
  loop_quiet :
      (fuel i n : ℕ) (event : Event) (w : W) (r : Registry)
      → ((h : ℕ) (v : W) → (call h event v r).1 ≡ r)
      → (r.subscriptions event.ev).count ≤ 8
      → i + n ≡ (r.subscriptions event.ev).count
      → n < fuel
      → publish_loop call fuel i event w r
        ≡ some (deliver call event r w (read (r.subscriptions event.ev).handlers i n), r)
  unfolding publish_loop
  loop_quiet zero i n event w r quiet c s f = absurd (omega arith)
  loop_quiet (suc fuel) i zero event w r quiet c s f =
      rw (le→ltb i (r.subscriptions event.ev).count (omega arith)) refl
  loop_quiet (suc fuel) i (suc n) event w r quiet c s f =
      let h = (r.subscriptions event.ev).handlers i in
      let next : u8 (i + 1) ≡ i + 1 = omega arith in
      rw (lt→ltb i (r.subscriptions event.ev).count (omega arith), quiet h w, next)
        (loop_quiet fuel (i + 1) n event (call h event w r).0 r quiet c (omega arith) (omega arith))

  loop_step :
      (fuel i : ℕ) (event : Event) (w : W) (r : Registry) {z : W × Registry}
      → ltb i (r.subscriptions event.ev).count ≡ true
      → u8 (i + 1) ≡ i + 1
      → publish_loop call fuel
          (i + 1)
          event
          (call ((r.subscriptions event.ev).handlers i) event w r).0
          (call ((r.subscriptions event.ev).handlers i) event w r).1
        ≡ some z
      → publish_loop call (suc fuel) i event w r ≡ some z
  unfolding publish_loop
  loop_step fuel i event w r more next e = rw (more, next, e) refl

  publish_step :
      (event : Event) (w : W) (r : Registry) {w' : W} {r' : Registry}
      → (not r.initialized || leb event_count event.ev) ≡ false
      → publish_loop call 9 0 event w r ≡ some (w', r')
      → publish call (some event) w r ≡ some (true, w', r')
  unfolding publish
  publish_step event w r ok e = rw (ok, e) refl

  loop_returns :
      (fuel i : ℕ) (event : Event) (w : W) (r : Registry)
      → ((h : ℕ) (v : W) (k : Registry) → IsValid k → IsValid (call h event v k).1)
      → IsValid r
      → i ≤ 8
      → 8 - i < fuel
      → (w' : W) × (r' : Registry) × (publish_loop call fuel i event w r ≡ some (w', r'))
        × IsValid r'
  unfolding publish_loop
  loop_returns zero i event w r keeps v b f = absurd (omega arith)
  loop_returns (suc fuel) i event w r keeps v b f =
      let sub = r.subscriptions event.ev in
      let out = call (sub.handlers i) event w r in
      elim (Bool-cases (ltb i sub.count)) [
        | inr end ↦ (w, r, rw end refl, v)
        | inl more ↦
            let h : i < sub.count = ltb→lt i sub.count more in
            let next : u8 (i + 1) ≡ i + 1 = omega (arith, v.fits event.ev) in
            let (w', r', e, v') =
              loop_returns fuel (i + 1) event out.0 out.1 keeps (keeps (sub.handlers i) w r v)
                (omega (arith, v.fits event.ev)) (omega (arith, v.fits event.ev)) in
            (w', r', loop_step fuel i event w r more next e, v')
      ]

  -- Whatever the handlers do, also subscribing and unsubscribing, if each leaves a valid table then
  -- `event_publish` on a valid table returns, in at most `max_event_subscribers` rounds, and leaves a
  -- valid table.
  pub publish_returns :
      (event : Option Event) (w : W) (r : Registry)
      → ((h : ℕ) (e : Event) (v : W) (k : Registry) → IsValid k → IsValid (call h e v k).1)
      → IsValid r
      → (done : Bool) × (w' : W) × (r' : Registry) × (publish call event w r ≡ some (done, w', r'))
        × IsValid r'
  unfolding publish
  publish_returns none w r keeps v = (false, w, r, refl, v)
  publish_returns (some event) w r keeps v =
      elim (Bool-cases (not r.initialized || leb event_count event.ev)) [
        | inl out ↦ (false, w, r, rw out refl, v)
        | inr ok ↦
            let (w', r', e, v') =
              loop_returns 9 0 event w r (λ h. keeps h event) v (omega arith) (omega arith) in
            (true, w', r', publish_step event w r ok e, v')
      ]

  -- On a valid, initialized table, an event that exists is delivered to exactly the handlers that are
  -- subscribed to it, each once, in the order of their subscription, if they leave the table as it is.
  pub publish_delivers :
      (event : Event) (w : W) (r : Registry)
      → ((h : ℕ) (v : W) → (call h event v r).1 ≡ r)
      → IsValid r
      → r.initialized ≡ true
      → event.ev < event_count
      → publish call (some event) w r
        ≡ some (true, deliver call event r w (subscribed r event.ev), r)
  publish_delivers event w r quiet v on b = publish_step event w r (ground arith) (
      loop_quiet 9 0 (r.subscriptions event.ev).count event w r quiet (v.fits event.ev)
        (omega arith) (omega (arith, v.fits event.ev)))
