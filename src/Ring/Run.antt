-- ===== src/Ring/Run.antt =====
-- Whole histories of calls on a ring of ring_buffer.c, against the bounded queue.
use native.Mathlib.Nat.{mod-eq_of_lt}
use minimal_watch_firmware_e.Base.{
  ◌+◌, ◌%◌, le→ltb, ℕ, ◌≤◌, ◌<◌, ◌≡◌, ◌∙◌, refl, ap, true, false, Option, none, some, List, [], ◌∷◌,
  arith, ◌==◌, length, ◌>>=◌,
}
use minimal_watch_firmware_e.Ring.{
  Ring, Policy, drop_oldest, drop_newest, init, clear, push, pop, is_empty, is_full,
}
use minimal_watch_firmware_e.Ring.Queue
use minimal_watch_firmware_e.Ring.Queue.{Op, pushes, pops, clears, Reply}
use minimal_watch_firmware_e.Ring.Valid.{IsLive}
use minimal_watch_firmware_e.Ring.Refine.{
  contents, length-contents, push_oldest_refines, push_newest_refines, pop_refines,
}

le→eqb : (a : ℕ) → 0 < a → (a == 0) ≡ false
le→eqb a h = ground arith

zero-mod : (a : ℕ) → 0 < a → (0 + 0) % a ≡ 0
zero-mod a h = mod-eq_of_lt h

module _ {ℓ} {A : Type ℓ} where
  -- The calls in order; `none` if one of them fails an assertion.
  pub run : Ring A → List (Op A) → Option (List (Reply A) × Ring A)
  run rb [] = some ([], rb)
  run rb (pushes x ∷ ops) = do
    (done, rb') ← push rb (some x)
    (replies, last) ← run rb' ops
    some ((done, none) ∷ replies, last)
  run rb (pops ∷ ops) = do
    (done, out, rb') ← pop rb
    (replies, last) ← run rb' ops
    some ((done, out) ∷ replies, last)
  run rb (clears ∷ ops) = do
    let cleared = clear rb
    (replies, last) ← run cleared.1 ops
    some ((cleared.0, none) ∷ replies, last)

  push_refines :
      {size : ℕ} {policy : Policy} {rb : Ring A} (x : A)
      → IsLive size policy rb
      → (rb' : Ring A) × (push rb (some x) ≡ some ((Queue.push size policy (contents rb) x).0, rb'))
        × IsLive size policy rb'
        × (contents rb' ≡ (Queue.push size policy (contents rb) x).1)
  push_refines {policy = drop_oldest} x v = push_oldest_refines x v
  push_refines {policy = drop_newest} x v = push_newest_refines x v

  -- `ringbuf_clear` keeps a live ring live and empties it.
  clear_refines :
      {size : ℕ} {policy : Policy} {rb : Ring A}
      → IsLive size policy rb
      → ((clear rb).0 ≡ true) × IsLive size policy (clear rb).1 × (contents (clear rb).1 ≡ [])
  unfolding clear
  clear_refines {size} {policy} {rb} v = rw v.locked_by (
    refl,
    record {
      valid =
          omega (arith, v.valid.some_room, v.valid.narrow, zero-mod rb.capacity v.valid.some_room);
      locked_by = refl;
      sized = v.sized;
      ruled = v.ruled;
    },
    refl,
  )

  -- `ringbuf_init` over real storage, with a capacity from 1 to 65535, elements of some size and a
  -- mutex, succeeds and leaves an empty live ring.
  pub init-IsLive :
      (rb : Ring A) (storage : ℕ → A) (size width : ℕ) (policy : Policy)
      → 0 < size
      → size < 65536
      → 0 < width
      → ((init true rb (some storage) size width policy).0 ≡ true)
        × IsLive size policy (init true rb (some storage) size width policy).1
        × (contents (init true rb (some storage) size width policy).1 ≡ [])
  unfolding init
  init-IsLive rb storage size width policy h k w =
      rw (le→ltb size 1 h, le→eqb width w)
        (
          refl,
          record {
            valid = omega (arith, mod-eq_of_lt h);
            locked_by = refl;
            sized = refl;
            ruled = refl;
          },
          refl,
        )

  -- On a live ring no history of pushes, pops and clears fails an assertion, each call returns what
  -- the bounded queue returns, and the ring ends live, with the elements of the queue.
  pub run_refines :
      {size : ℕ} {policy : Policy} (ops : List (Op A)) {rb : Ring A}
      → IsLive size policy rb
      → (rb' : Ring A) × (run rb ops ≡ some ((Queue.run size policy (contents rb) ops).0, rb'))
        × IsLive size policy rb'
        × (contents rb' ≡ (Queue.run size policy (contents rb) ops).1)
  unfolding run Queue.run
  run_refines [] {rb} v = (rb, refl, v, refl)
  run_refines {size} {policy} (pushes x ∷ ops) {rb} v =
      let (rb1, e1, v1, c1) = push_refines x v in
      let (rb2, e2, v2, c2) = run_refines ops {rb = rb1} v1 in
      (rb2, rw (e1, e2, c1), v2, c2 ∙ ap (λ q. (Queue.run size policy q ops).1) c1)
  run_refines {size} {policy} (pops ∷ ops) {rb} v =
      let (rb1, e1, v1, c1) = pop_refines v in
      let (rb2, e2, v2, c2) = run_refines ops {rb = rb1} v1 in
      (rb2, rw (e1, e2, c1), v2, c2 ∙ ap (λ q. (Queue.run size policy q ops).1) c1)
  run_refines {size} {policy} (clears ∷ ops) {rb} v =
      let (e1, v1, c1) = clear_refines v in
      let (rb2, e2, v2, c2) = run_refines ops {rb = (clear rb).1} v1 in
      (rb2, rw (e1, e2, c1), v2, c2 ∙ ap (λ q. (Queue.run size policy q ops).1) c1)

  -- On a live ring `ringbuf_is_empty` and `ringbuf_is_full` tell whether it holds no element or as many
  -- as its capacity, which it never exceeds.
  pub is_empty_refines :
      {size : ℕ} {policy : Policy} {rb : Ring A}
      → IsLive size policy rb
      → (is_empty rb ≡ (length (contents rb) == 0))
        × (is_full rb ≡ (length (contents rb) == size))
        × (length (contents rb) ≤ size)
  unfolding is_empty is_full
  is_empty_refines {size} {policy} {rb} v =
      ground (arith, length-contents rb, v.sized, v.locked_by, v.valid.count_fits)
