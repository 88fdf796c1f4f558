-- ===== src/Runtime/Schedule.antt =====
-- What `schedule_user_work` and `schedule_system_work` of
-- components/runtime_manager/src/runtime_manager.c answer, and where the item goes.
use minimal_watch_firmware_e.Base.{
  ◌≡◌, refl, sym, ◌∙◌, Bool, true, false, Option, some, [], ◌∷◌, ◌++◌, inl, inr, Bool-cases,
  if◌then◌else◌, ltb, length, ℕ, ◌<◌, ◌==◌, none, ◌⊎◌, not, ◌||◌, arith,
}
use minimal_watch_firmware_e.Runtime.{grace_period, same_state, Env, Runtime}
use minimal_watch_firmware_e.Runtime.Platform.{Os, Laws, WorkItem}
use minimal_watch_firmware_e.Runtime.Calls.{
  is_null, refuses_work, send_user, send_system, schedule_user_work, schedule_system_work,
}
use minimal_watch_firmware_e.Runtime.Keeps.{with_work, with_pending}
use minimal_watch_firmware_e.Runtime.Valid.{IsValid, held_items, room}

module _ {os : Os} (laws : Laws os) where
  -- How a queue changes when an item comes in, and the answer: behind the others where there is room.
  abbrev pub TakesIn : WorkItem → (q q' : Option os.Queue) → Bool → Type 0
  TakesIn x q q' b =
      (b ≡ ltb (length (held_items laws q)) (room laws q))
      × (held_items laws q' ≡ (if b then held_items laws q ++ x ∷ [] else held_items laws q))

  -- An item that may be scheduled: it has a handler, and the manager was initialized and does not shut
  -- down.
  abbrev pub MayRun : Option WorkItem → Runtime os → Type 0
  MayRun none r = ⊥
  MayRun (some x) r = (r.initialized ≡ true) × (0 < x.handler) × (r.shutdown_initialized ≡ false)

  -- The answer to such an item, and the state, by whether the lock was had and a grace period runs.
  abbrev pub UserTaken : (locked grace : Bool) → WorkItem → Runtime os → Bool × Runtime os → Type 0
  UserTaken false _ x r (b, r') = (b ≡ true) × (r' ≡ r)
  UserTaken true true x r (b, r') =
      TakesIn x r.pending_user_work r'.pending_user_work b × (r'.user_work ≡ r.user_work)
  UserTaken true false x r (b, r') =
      TakesIn x r.user_work r'.user_work b × (r'.pending_user_work ≡ r.pending_user_work)

  abbrev pub SystemTaken :
      (locked grace : Bool) → WorkItem → Runtime os → Bool × Runtime os → Type 0
  SystemTaken false _ x r (b, r') = (b ≡ true) × (r' ≡ r)
  SystemTaken true true x r (b, r') =
      TakesIn x r.pending_system_work r'.pending_system_work b × (r'.system_work ≡ r.system_work)
  SystemTaken true false x r (b, r') =
      TakesIn x r.system_work r'.system_work b × (r'.pending_system_work ≡ r.pending_system_work)

  abbrev pub Served :
      (WorkItem → Runtime os → Bool × Runtime os → Type 0)
      → Option WorkItem
      → Runtime os
      → Bool × Runtime os
      → Type 0
  Served Taken item r (b, r') =
      ((¬ MayRun item r) × (b ≡ false) × (r' ≡ r))
      ⊎ (MayRun item r × ((x : WorkItem) × (item ≡ some x) × Taken x r (b, r')))

  refused_lem :
      (q : Option os.Queue) (item : Option WorkItem) (r : Runtime os) (d : os.Queue)
      → q ≡ some d
      → refuses_work os q item r ≡ true
      → ¬ MayRun item r
  refused_lem q none r d at h m = m
  refused_lem q (some x) r d at h (i, n, s) =
      let open_now : refuses_work os q (some x) r ≡ false = rw (at, i, s, above n) refl in cc
    where
      above : {n : ℕ} → 0 < n → (n == 0) ≡ false
      above h = ground arith

  null_lem : (q : Option os.Queue) (r : Runtime os) → refuses_work os q none r ≡ true
  null_lem q r = elim (Bool-cases (not r.initialized || is_null q)) [
    | inl h ↦ rw h refl
    | inr h ↦ rw h refl
  ]

  taken_lem :
      (q : Option os.Queue) (x : WorkItem) (r : Runtime os) (d : os.Queue)
      → q ≡ some d
      → refuses_work os q (some x) r ≡ false
      → MayRun (some x) r
  taken_lem q x r d at h = (ground arith, ground arith, ground arith)

  takes_in :
      (x : WorkItem) (o : Option os.Queue) (q : os.Queue)
      → o ≡ some q
      → TakesIn x o (some (os.send x q).1) (os.send x q).0
  takes_in x o q at =
      let sent = laws.was_sent x q in
      (
        sent ∙ (λ i. ltb (length (held_items laws (sym at i))) (room laws (sym at i))),
        laws.items-send x q
            ∙ (λ i. if sym sent i then laws.items q ++ x ∷ [] else laws.items q)
            ∙ (λ i.
                if (os.send x q).0
                then held_items laws (sym at i) ++ x ∷ []
                else held_items laws (sym at i)),
      )

  module _ (e : Env) (r : Runtime os) (v : IsValid laws r) where
    send_user-answers :
        (x : WorkItem) (g : Bool)
        → same_state r.state grace_period ≡ g
        → (d : Bool × Runtime os) × (send_user os x r ≡ some d)
          × UserTaken true g x r d
          × IsValid laws d.1
    send_user-answers x true g =
        let (q, at) = v.ready.pending_user in
        (
          ((os.send x q).0, record r { pending_user_work = some (os.send x q).1 }),
          simp (g, at),
          (takes_in x r.pending_user_work q at, refl),
          with_pending laws r v (some (os.send x q).1) r.pending_system_work (_, refl)
              v.ready.pending_system g,
        )
    send_user-answers x false g =
        let (q, at) = v.ready.user in
        (
          ((os.send x q).0, record r { user_work = some (os.send x q).1 }),
          simp (g, at),
          (takes_in x r.user_work q at, refl),
          with_work laws r v (some (os.send x q).1) r.system_work (_, refl) v.ready.system,
        )

    send_system-answers :
        (x : WorkItem) (g : Bool)
        → same_state r.state grace_period ≡ g
        → (d : Bool × Runtime os) × (send_system os x r ≡ some d)
          × SystemTaken true g x r d
          × IsValid laws d.1
    send_system-answers x true g =
        let (q, at) = v.ready.pending_system in
        (
          ((os.send x q).0, record r { pending_system_work = some (os.send x q).1 }),
          simp (g, at),
          (takes_in x r.pending_system_work q at, refl),
          with_pending laws r v r.pending_user_work (some (os.send x q).1) v.ready.pending_user
              (_, refl) g,
        )
    send_system-answers x false g =
        let (q, at) = v.ready.system in
        (
          ((os.send x q).0, record r { system_work = some (os.send x q).1 }),
          simp (g, at),
          (takes_in x r.system_work q at, refl),
          with_work laws r v r.user_work (some (os.send x q).1) v.ready.user (_, refl),
        )

    schedule_user-answers :
        (item : Option WorkItem)
        → (d : Bool × Runtime os) × (schedule_user_work os e item r ≡ some d)
          × Served (UserTaken e.locked (same_state r.state grace_period)) item r d
          × IsValid laws d.1
    unfolding schedule_user_work
    schedule_user-answers none =
        ((false, r), simp (null_lem r.user_work r), inl (λ m. m, refl, refl), v)
    schedule_user-answers (some x) = elim (Bool-cases (refuses_work os r.user_work (some x) r)) [
      | inl no_use ↦ (
        (false, r),
        simp no_use,
        inl (refused_lem r.user_work (some x) r _ v.ready.user.1 no_use, refl, refl),
        v,
      )
      | inr fine ↦
          let may = taken_lem r.user_work x r _ v.ready.user.1 fine in
          elim (Bool-cases e.locked) [
            | inr l ↦ ((true, r), simp (fine, l), inr (may, (x, refl, rw l (refl, refl))), v)
            | inl l ↦
                let (d, ran, a, v') = send_user-answers x (same_state r.state grace_period) refl in
                (d, simp (fine, l) ran, inr (may, (x, refl, simp l a)), v')
          ]
    ]

    schedule_system-answers :
        (item : Option WorkItem)
        → (d : Bool × Runtime os) × (schedule_system_work os e item r ≡ some d)
          × Served (SystemTaken e.locked (same_state r.state grace_period)) item r d
          × IsValid laws d.1
    unfolding schedule_system_work
    schedule_system-answers none =
        ((false, r), simp (null_lem r.system_work r), inl (λ m. m, refl, refl), v)
    schedule_system-answers (some x) =
        elim (Bool-cases (refuses_work os r.system_work (some x) r)) [
          | inl no_use ↦ (
            (false, r),
            simp no_use,
            inl (refused_lem r.system_work (some x) r _ v.ready.system.1 no_use, refl, refl),
            v,
          )
          | inr fine ↦
              let may = taken_lem r.system_work x r _ v.ready.system.1 fine in
              elim (Bool-cases e.locked) [
                | inr l ↦ ((true, r), simp (fine, l), inr (may, (x, refl, rw l (refl, refl))), v)
                | inl l ↦
                    let (d, ran, a, v') =
                      send_system-answers x (same_state r.state grace_period) refl in
                    (d, simp (fine, l) ran, inr (may, (x, refl, simp l a)), v')
              ]
        ]

    -- In a valid state `schedule_user_work` and `schedule_system_work` return on every item, NULL
    -- included, and leave a valid state. If the item is NULL or has no handler, or the manager was not
    -- initialized or shuts down: the answer is false and nothing changes. In every other case, without
    -- the lock, the answer is true and nothing changes. With the lock, the answer is whether there is
    -- room in the queue for pending work, in a grace period, or else in the work queue, and the item is
    -- then behind the others there; the other of the two queues does not change.
    pub schedule_answers :
        (item : Option WorkItem)
        → ((d : Bool × Runtime os) × (schedule_user_work os e item r ≡ some d)
            × Served (UserTaken e.locked (same_state r.state grace_period)) item r d
            × IsValid laws d.1)
          × ((d : Bool × Runtime os) × (schedule_system_work os e item r ≡ some d)
              × Served (SystemTaken e.locked (same_state r.state grace_period)) item r d
              × IsValid laws d.1)
    schedule_answers item = (schedule_user-answers item, schedule_system-answers item)
