-- ===== src/Runtime/Drain.antt =====
-- The queues of components/runtime_manager/src/runtime_manager.c: what `drain_pending_queue` moves,
-- and what the hooks of the end of a window add.
use minimal_watch_firmware_e.Base.{
  ℕ, zero, suc, ◌+◌, ◌-◌, ◌≡◌, refl, ap, sym, ◌∙◌, ◌<◌, Option, some, List, [], ◌∷◌, ◌++◌, arith,
  inl, inr, Bool-cases, if◌then◌else◌, length, take, ltb, length-append, append-nil, append_assoc,
  ltb→lt, ltb→le,
}
use minimal_watch_firmware_e.Runtime.{sleep}
use minimal_watch_firmware_e.Runtime.Platform.{Os, Laws, WorkItem}
use minimal_watch_firmware_e.Runtime.Window.{
  drain_loop, drain_pending_queue, queue_hooks, hook_item,
}

-- What a queue of a capacity holds after more items were sent: those that do not fit are skipped.
abbrev pub filled : (cap : ℕ) → (held sent : List WorkItem) → List WorkItem
filled cap held sent = held ++ take (cap - length held) sent

take_nil : (n : ℕ) → ◌≡◌ {A = List WorkItem} (take n []) []
take_nil zero = refl
take_nil (suc n) = refl

filled_none : (cap : ℕ) (held : List WorkItem) → filled cap held [] ≡ held
filled_none cap held = ap (λ (l : List WorkItem). held ++ l) (take_nil _) ∙ append-nil held

filled-send :
    (cap : ℕ) (held : List WorkItem) (x : WorkItem) (l : List WorkItem)
    → filled cap (if ltb (length held) cap then held ++ x ∷ [] else held) l
      ≡ filled cap held (x ∷ l)
filled-send cap held x l = elim (Bool-cases (ltb (length held) cap)) [
  | inl fits ↦
      let room : cap - length held ≡ suc (cap - length (held ++ x ∷ [])) =
        omega (arith, ltb→lt (length held) cap fits, length-append held (x ∷ [])) in
      rw fits (rw room (append_assoc held (x ∷ []) (take (cap - length (held ++ x ∷ [])) l)))
  | inr full ↦
      let no_room : cap - length held ≡ 0 = omega (arith, ltb→le (length held) cap full) in
      rw full (rw no_room refl)
]

module _ (os : Os) (laws : Laws os) where
  open laws use {items, capacity}

  abbrev pub Drained : (src dest : os.Queue) → os.Queue × os.Queue → Type 0
  Drained src dest d =
      (items d.0 ≡ [])
      × (items d.1 ≡ filled (capacity dest) (items dest) (items src))
      × (capacity d.1 ≡ capacity dest)
      × (capacity d.0 ≡ capacity src)

  drain_loop-Drained :
      (f : ℕ) (l : List WorkItem) (src dest : os.Queue)
      → items src ≡ l
      → length l < f
      → (d : os.Queue × os.Queue) × (drain_loop os f src dest ≡ some d) × Drained src dest d
  unfolding drain_loop
  drain_loop-Drained zero l src dest e h = elim h [ ]
  drain_loop-Drained (suc f) [] src dest e h = (
    (src, dest),
    rw (laws.receive_empty src e, drain_loop) refl,
    (
      e,
      sym (ap (filled (capacity dest) (items dest)) e ∙ filled_none (capacity dest) (items dest)),
      refl,
      refl,
    ),
  )
  drain_loop-Drained (suc f) (x ∷ l) src dest e h =
      let (rest, got, left, cap) = laws.receive_first src x l e in
      let (d, ran, (gone, full, cap_d, cap_s)) =
        drain_loop-Drained f l rest (os.send x dest).1 left (omega arith) in
      let all : items d.1 ≡ filled (capacity dest) (items dest) (items src) =
        full
        ∙ (λ i. filled (laws.capacity-send x dest i) (laws.items-send x dest i) (left i))
        ∙ filled-send (capacity dest) (items dest) x l
        ∙ ap (filled (capacity dest) (items dest)) (sym e) in
      (d, rw (got, drain_loop) ran, (gone, all, cap_d ∙ laws.capacity-send x dest, cap_s ∙ cap))

  -- Outside a grace period `drain_pending_queue` moves all that is pending, in order.
  pub drain_pending_queue-Drained :
      (qs qd : Option os.Queue) (src dest : os.Queue)
      → qs ≡ some src
      → qd ≡ some dest
      → (d : os.Queue × os.Queue) × (drain_pending_queue os sleep qs qd ≡ some (some d.0, some d.1))
        × Drained src dest d
  unfolding drain_pending_queue
  drain_pending_queue-Drained qs qd src dest es ed =
      let (d, ran, all) =
        drain_loop-Drained (os.waiting src + 1) (items src) src dest refl
          (omega (arith, laws.waiting_lem src)) in
      (d, rw (es, ed) (rw ran refl), all)

  -- The loop that queues the hooks, and what it queues.
  abbrev pub hook_items : (left i : ℕ) → (ℕ → ℕ) → List WorkItem
  hook_items zero i hooks = []
  hook_items (suc left) i hooks = hook_item (hooks i) ∷ hook_items left (i + 1) hooks

  pub queue_hooks-filled :
      (left i : ℕ) (hooks : ℕ → ℕ) (q : os.Queue)
      → items (queue_hooks os left i hooks q)
        ≡ filled (capacity q) (items q) (hook_items left i hooks)
  unfolding queue_hooks
  queue_hooks-filled zero i hooks q = sym (filled_none (capacity q) (items q))
  queue_hooks-filled (suc left) i hooks q =
      queue_hooks-filled left (i + 1) hooks (os.send (hook_item (hooks i)) q).1
      ∙ (λ k.
          filled (laws.capacity-send (hook_item (hooks i)) q k)
            (laws.items-send (hook_item (hooks i)) q k) (hook_items left (i + 1) hooks))
      ∙ filled-send (capacity q) (items q) (hook_item (hooks i)) (hook_items left (i + 1) hooks)
