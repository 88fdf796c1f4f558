-- ===== src/Ring/Valid.antt =====
-- The representation invariant of a ring buffer, and that every operation keeps it.
use native.Mathlib.Nat.{mod-add-mod, mod-lt}
use minimal_watch_firmware_e.Base.{
  ℕ, ◌+◌, ◌-◌, ◌%◌, ◌≤◌, ◌<◌, ◌≡◌, ◌∙◌, sym, ap, ap₂, true, arith, u16,
}
use minimal_watch_firmware_e.Ring.{Ring, Policy, next, drop_first, grown}

-- `capacity` is a `uint16_t`, the indices stay below it, and `write_idx` is `count` slots past
-- `read_idx`.
pub record IsValid {ℓ} {A : Type ℓ} (rb : Ring A) : Type 0 where
  pub some_room : 0 < rb.capacity
  pub narrow : rb.capacity < 65536
  pub reads_inside : rb.read_idx < rb.capacity
  pub count_fits : rb.count ≤ rb.capacity
  pub writes_behind : rb.write_idx ≡ (rb.read_idx + rb.count) % rb.capacity

-- A valid ring with its mutex, of a given capacity and policy.
pub record IsLive {ℓ} {A : Type ℓ} (cap : ℕ) (policy : Policy) (rb : Ring A) : Type 0 where
  pub valid : IsValid rb
  pub locked_by : rb.mutex ≡ true
  pub sized : rb.capacity ≡ cap
  pub ruled : rb.overflow_policy ≡ policy

-- One round of `index = (index + 1) % k` moves a sum taken modulo `k` by one.
pub shift : (k a n : ℕ) → ((a + 1) % k + n) % k ≡ (a + (n + 1)) % k
shift k a n = mod-add-mod (a + 1) k n ∙ ap (λ t. t % k) (omega arith)

module _ {ℓ} {A : Type ℓ} where
  pub next_lem : {rb : Ring A} → IsValid rb → (i : ℕ) → next rb i ≡ (i + 1) % rb.capacity
  next_lem {rb} v i = omega (arith, mod-lt (i + 1) {m = rb.capacity} v.some_room)

  pub write_inside : {rb : Ring A} → IsValid rb → rb.write_idx < rb.capacity
  write_inside {rb} v = omega (arith, mod-lt (rb.read_idx + rb.count) {m = rb.capacity} v.some_room)

  pub drop_first-IsValid : {rb : Ring A} → IsValid rb → 0 < rb.count → IsValid (drop_first rb)
  drop_first-IsValid {rb} v h = record {
    some_room = v.some_room;
    narrow = v.narrow;
    reads_inside = omega (arith, next_lem v rb.read_idx, mod-lt (rb.read_idx + 1) v.some_room);
    count_fits = omega arith;
    writes_behind =
        v.writes_behind
        ∙ sym (
            ap₂ (λ a n. (a + n) % rb.capacity) (next_lem v rb.read_idx) fewer
            ∙ shift rb.capacity rb.read_idx (rb.count - 1)
            ∙ ap (λ n. (rb.read_idx + n) % rb.capacity) (omega arith));
  }
    where
      fewer : u16 (rb.count + 65535) ≡ rb.count - 1
      fewer = omega arith

  pub grown-IsValid :
      {rb : Ring A} (x : A) → IsValid rb → rb.count < rb.capacity → IsValid (grown rb x)
  grown-IsValid {rb} x v h = record {
    some_room = v.some_room;
    narrow = v.narrow;
    reads_inside = v.reads_inside;
    count_fits = omega arith;
    writes_behind =
        next_lem v rb.write_idx
        ∙ ap (λ w. (w + 1) % rb.capacity) v.writes_behind
        ∙ mod-add-mod (rb.read_idx + rb.count) rb.capacity 1
        ∙ ap (λ n. n % rb.capacity) (omega arith);
  }
