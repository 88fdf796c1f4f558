-- ===== src/Ring/Refine.antt =====
-- A live ring behaves as the queue of the elements that it holds.
use native.Mathlib.Nat.{mod-eq_of_lt, mod-eq-sub-mod, mod-lt}
use minimal_watch_firmware_e.Base.{
  ℕ, zero, suc, ◌+◌, ◌-◌, ◌%◌, ◌<◌, ◌≡◌, ◌≢◌, ◌∙◌, refl, sym, ap, ap₂, true, false, none, some,
  List, [], ◌∷◌, ◌++◌, arith, dec_lt, ℕ_discrete, store, length, u16,
}
use minimal_watch_firmware_e.Ring.{
  Ring, Policy, drop_oldest, drop_newest, push, pop, put, drop_first, grown,
}
use minimal_watch_firmware_e.Ring.Queue
use minimal_watch_firmware_e.Ring.Valid.{
  IsValid, IsLive, shift, next_lem, drop_first-IsValid, grown-IsValid,
}

module _ {ℓ} {A : Type ℓ} where
  -- The `n` elements from slot `h` on, going round at `size`.
  abbrev pub window : (ℕ → A) → ℕ → ℕ → ℕ → List A
  window m size h zero = []
  window m size h (suc n) = m h ∷ window m size ((h + 1) % size) n

  length-window : (m : ℕ → A) (size h n : ℕ) → length (window m size h n) ≡ n
  length-window m size h zero = refl
  length-window m size h (suc n) = ap suc (length-window m size ((h + 1) % size) n)

  abbrev pub contents : Ring A → List A
  contents rb = window rb.buffer rb.capacity rb.read_idx rb.count

  pub length-contents : (rb : Ring A) → length (contents rb) ≡ rb.count
  length-contents rb = length-window rb.buffer rb.capacity rb.read_idx rb.count

-- Fewer than `size` steps round the ring do not lead back to the start.
no_return : (size h k : ℕ) → h < size → suc k < size → (h + suc k) % size ≢ h
no_return size h k hh hk = elim (dec_lt (h + suc k) size) [
  | yes p ↦ omega (arith, mod-eq_of_lt p)
  | no p ↦ omega (
    arith,
    mod-eq-sub-mod {n = h + suc k} {m = size} (omega arith),
    mod-eq_of_lt {n = h + suc k - size} {m = size} (omega arith),
  )
]

module _ {ℓ} {A : Type ℓ} where
  -- A write to the slot behind a window extends it.
  window-store :
      (m : ℕ → A) (size : ℕ) (x : A) (n h w : ℕ)
      → h < size
      → n < size
      → w ≡ (h + n) % size
      → window (store m w x) size h (suc n) ≡ window m size h n ++ (x ∷ [])
  window-store m size x zero h w hh hn e =
      let same : w ≡ h = e ∙ (ap (λ t. t % size) (omega arith) ∙ mod-eq_of_lt hh) in
      ap (λ t. t ∷ []) (ground arith)
  window-store m size x (suc n) h w hh hn e =
      let apart : w ≢ h = (λ same. no_return size h n hh hn (sym e ∙ same)) in
      ap₂ ◌∷◌ (ground arith) (
        window-store m size x n ((h + 1) % size) w (mod-lt (h + 1) (omega arith)) (omega arith)
          (e ∙ (ap (λ t. (h + t) % size) (omega arith) ∙ sym (shift size h n))))

  grown-contents :
      {rb : Ring A} (x : A)
      → IsValid rb
      → rb.count < rb.capacity
      → contents (grown rb x) ≡ contents rb ++ (x ∷ [])
  grown-contents {rb} x v h =
      ap (window (store rb.buffer rb.write_idx x) rb.capacity rb.read_idx) more
      ∙ window-store rb.buffer rb.capacity x rb.count rb.read_idx rb.write_idx v.reads_inside h
          v.writes_behind
    where
      more : u16 (rb.count + 1) ≡ suc rb.count
      more = omega (arith, v.narrow)

  -- What `count--` and the step of `read_idx` leave is the rest of the queue.
  drop_first-contents :
      {rb : Ring A}
      → IsValid rb
      → 0 < rb.count
      → contents rb ≡ rb.buffer rb.read_idx ∷ contents (drop_first rb)
  drop_first-contents {rb} v h =
      ap (window rb.buffer rb.capacity rb.read_idx) more
      ∙ ap (λ a. rb.buffer rb.read_idx ∷ window rb.buffer rb.capacity a (u16 (rb.count + 65535)))
          (sym (next_lem v rb.read_idx))
    where
      more : rb.count ≡ suc (u16 (rb.count + 65535))
      more = omega (arith, v.narrow)

  put_lem :
      {rb : Ring A} (x : A)
      → IsValid rb
      → rb.count < rb.capacity
      → put rb x ≡ some (true, grown rb x)
  put_lem {rb} x v h = ground (arith, v.narrow)

  push_room :
      {size : ℕ} {policy : Policy} {rb : Ring A} (x : A)
      → IsLive size policy rb
      → rb.count < rb.capacity
      → push rb (some x) ≡ some (true, grown rb x)
  unfolding push
  push_room {rb = rb} x v h = ground (arith, put_lem x v.valid h)

  push_full :
      {size : ℕ} {rb : Ring A} (x : A)
      → IsLive size drop_oldest rb
      → rb.count ≡ rb.capacity
      → push rb (some x) ≡ some (true, grown (drop_first rb) x)
  unfolding push
  push_full {rb = rb} x v full = ground (
    arith,
    v.valid.some_room,
    v.valid.narrow,
    put_lem {rb = drop_first rb} x (drop_first-IsValid v.valid (omega arith)) (omega arith),
  )

  push_full_newest :
      {size : ℕ} {rb : Ring A} (x : A)
      → IsLive size drop_newest rb
      → rb.count ≡ rb.capacity
      → push rb (some x) ≡ some (false, rb)
  unfolding push
  push_full_newest {rb = rb} x v full = ground arith

  grown-IsLive :
      {size : ℕ} {policy : Policy} {rb : Ring A} (x : A)
      → IsLive size policy rb
      → rb.count < rb.capacity
      → IsLive size policy (grown rb x)
  grown-IsLive x v h = record {
    valid = grown-IsValid x v.valid h;
    locked_by = v.locked_by;
    sized = v.sized;
    ruled = v.ruled;
  }

  drop_first-IsLive :
      {size : ℕ} {policy : Policy} {rb : Ring A}
      → IsLive size policy rb
      → 0 < rb.count
      → IsLive size policy (drop_first rb)
  drop_first-IsLive v h = record {
    valid = drop_first-IsValid v.valid h;
    locked_by = v.locked_by;
    sized = v.sized;
    ruled = v.ruled;
  }

  -- A push into a live ring that drops its oldest element never fails: it returns `true`, keeps the
  -- ring live, and leaves the elements that the queue holds after the push.
  pub push_oldest_refines :
      {size : ℕ} {rb : Ring A} (x : A)
      → IsLive size drop_oldest rb
      → (rb' : Ring A) × (push rb (some x) ≡ some (true, rb'))
        × IsLive size drop_oldest rb'
        × (contents rb' ≡ Queue.push_oldest size (contents rb) x)
  unfolding Queue.push_oldest
  push_oldest_refines {size} {rb} x v = elim (ℕ_discrete rb.count rb.capacity) [
    | yes full ↦ (
      grown (drop_first rb) x,
      push_full x v full,
      grown-IsLive x (drop_first-IsLive v (omega (arith, v.valid.some_room)))
          (omega (arith, v.valid.some_room, v.valid.narrow)),
      grown-contents x (drop_first-IsValid v.valid (omega (arith, v.valid.some_room)))
            (omega (arith, v.valid.some_room, v.valid.narrow))
          ∙ ground (
            arith,
            length-contents rb,
            v.sized,
            drop_first-contents v.valid (omega (arith, v.valid.some_room)),
          ),
    )
    | no less ↦ (
      grown rb x,
      push_room x v (omega (arith, v.valid.count_fits)),
      grown-IsLive x v (omega (arith, v.valid.count_fits)),
      grown-contents x v.valid (omega (arith, v.valid.count_fits))
          ∙ ground (arith, length-contents rb, v.sized),
    )
  ]

  -- A push into a live ring that drops its newest element keeps it live, returns `false` exactly on a
  -- full ring, whose elements stay, and otherwise appends the element.
  pub push_newest_refines :
      {size : ℕ} {rb : Ring A} (x : A)
      → IsLive size drop_newest rb
      → (rb' : Ring A) × (push rb (some x) ≡ some ((Queue.push_newest size (contents rb) x).0, rb'))
        × IsLive size drop_newest rb'
        × (contents rb' ≡ (Queue.push_newest size (contents rb) x).1)
  unfolding Queue.push_newest
  push_newest_refines {size} {rb} x v = elim (ℕ_discrete rb.count rb.capacity) [
    | yes full ↦ (
      rb,
      push_full_newest x v full ∙ ground (arith, length-contents rb, v.sized),
      v,
      ground (arith, length-contents rb, v.sized),
    )
    | no less ↦ (
      grown rb x,
      push_room x v (omega (arith, v.valid.count_fits))
          ∙ ground (arith, length-contents rb, v.sized),
      grown-IsLive x v (omega (arith, v.valid.count_fits)),
      grown-contents x v.valid (omega (arith, v.valid.count_fits))
          ∙ ground (arith, length-contents rb, v.sized),
    )
  ]

  pop-some :
      {size : ℕ} {policy : Policy} {rb : Ring A}
      → IsLive size policy rb
      → 0 < rb.count
      → pop rb ≡ some (true, some (rb.buffer rb.read_idx), drop_first rb)
  unfolding pop
  pop-some {rb = rb} v h = ground (arith, v.valid.count_fits, v.valid.narrow)

  pop-none :
      {size : ℕ} {policy : Policy} {rb : Ring A}
      → IsLive size policy rb
      → rb.count ≡ 0
      → pop rb ≡ some (false, none, rb)
  unfolding pop
  pop-none {rb = rb} v h = ground arith

  -- A pop from a live ring returns and removes the oldest element, or returns `false` on an empty ring,
  -- which stays empty; the ring is live again.
  pub pop_refines :
      {size : ℕ} {policy : Policy} {rb : Ring A}
      → IsLive size policy rb
      → (rb' : Ring A) × (pop rb
          ≡ some ((Queue.pop (contents rb)).0, (Queue.pop (contents rb)).1, rb'))
        × IsLive size policy rb'
        × (contents rb' ≡ (Queue.pop (contents rb)).2)
  unfolding Queue.pop
  pop_refines {size} {policy} {rb} v = elim (ℕ_discrete rb.count 0) [
    | yes empty ↦ (
      rb,
      pop-none v empty ∙ ground (arith, ap (window rb.buffer rb.capacity rb.read_idx) empty),
      v,
      ground (arith, ap (window rb.buffer rb.capacity rb.read_idx) empty),
    )
    | no more ↦ (
      drop_first rb,
      pop-some v (omega arith) ∙ ground (arith, drop_first-contents v.valid (omega arith)),
      drop_first-IsLive v (omega arith),
      ground (arith, drop_first-contents v.valid (omega arith)),
    )
  ]
