-- ===== src/Ring.antt =====
-- components/common/src/ring_buffer.c: a bounded FIFO of fixed-size elements behind a mutex.
--
-- The storage is a function from slots to elements, so `ringbuf_ptr` is a slot number and
-- `memcpy` of `element_size` bytes moves one element. The mutex is only whether it exists: a take
-- with `portMAX_DELAY` returns when the mutex is held, so each call is one atomic step.
-- `none` is a failed `configASSERT`. The pointer `rb` is never null here: both clients pass the
-- address of a static ring; the other pointers are options.
pub mod Queue
pub mod Valid
pub mod Refine
pub mod Run
mod Tests
use minimal_watch_firmware_e.Base.{
  ℕ, ◌+◌, ◌%◌, Bool, true, false, not, ◌||◌, Option, none, some, ltb, leb, ◌==◌, if◌then◌else◌, u16,
  store, ◌>>=◌,
}

-- `rb_overflow_policy_t`
pub data Policy : Type 0 where
  drop_oldest drop_newest : Policy

-- `ring_buffer_t`
pub record Ring {ℓ} (A : Type ℓ) : Type ℓ where
  pub buffer : ℕ → A
  pub element_size : ℕ
  pub capacity : ℕ
  pub read_idx : ℕ
  pub write_idx : ℕ
  pub count : ℕ
  pub mutex : Bool
  pub overflow_policy : Policy

module _ {ℓ} {A : Type ℓ} where
  abbrev pub next : Ring A → ℕ → ℕ
  next rb index = u16 ((index + 1) % rb.capacity)

  abbrev pub is_empty_unsafe : Ring A → Bool
  is_empty_unsafe rb = rb.count == 0

  abbrev pub is_full_unsafe : Ring A → Bool
  is_full_unsafe rb = rb.count == rb.capacity

  -- `created` says whether `xSemaphoreCreateMutex` returned a mutex.
  unfoldable pub init : Bool → Ring A → Option (ℕ → A) → ℕ → ℕ → Policy → Bool × Ring A
  init created rb none capacity element_size policy = (false, rb)
  init created rb (some storage) capacity element_size policy =
      if ltb capacity 1 || element_size == 0 then (false, rb) else (
        created,
        record {
          buffer = storage;
          element_size = element_size;
          capacity = capacity;
          read_idx = 0;
          write_idx = 0;
          count = 0;
          mutex = created;
          overflow_policy = policy;
        },
      )

  unfoldable pub deinit : Ring A → Ring A
  deinit rb = if not rb.mutex then rb else record rb { mutex = false }

  unfoldable pub is_empty : Ring A → Bool
  is_empty rb = if not rb.mutex then true else is_empty_unsafe rb

  unfoldable pub is_full : Ring A → Bool
  is_full rb = if not rb.mutex then true else is_full_unsafe rb

  unfoldable pub clear : Ring A → Bool × Ring A
  clear rb =
      if not rb.mutex
      then (false, rb)
      else (true, record rb { read_idx = 0; write_idx = 0; count = 0 })

  abbrev pub capacity_of : Ring A → ℕ
  capacity_of rb = rb.capacity

  -- `configASSERT(rb->count <= rb->capacity)`, before the mutex is given back.
  abbrev pub checked {κ} : {B : Type κ} → Ring A → B → Option B
  checked rb result = if leb rb.count rb.capacity then some result else none

  -- The tail of `ringbuf_push`, once there is room.
  abbrev pub grown : Ring A → A → Ring A
  grown rb x = record rb {
    buffer = store rb.buffer rb.write_idx x;
    write_idx = next rb rb.write_idx;
    count = u16 (rb.count + 1);
  }

  abbrev pub put : Ring A → A → Option (Bool × Ring A)
  put rb x = checked (grown rb x) (true, grown rb x)

  -- `count--` on a `uint16_t`.
  abbrev pub drop_first : Ring A → Ring A
  drop_first rb = record rb { count = u16 (rb.count + 65535); read_idx = next rb rb.read_idx }

  abbrev pub make_room : Policy → Ring A → Option (Ring A)
  make_room drop_newest rb = none
  make_room drop_oldest rb = some (drop_first rb)

  abbrev pub push_locked : Ring A → A → Option (Bool × Ring A)
  push_locked rb x =
      if is_full_unsafe rb
      then elim (make_room rb.overflow_policy rb) [ none ↦ some (false, rb) | some rb' ↦ put rb' x ]
      else put rb x

  -- The item is a pointer, so it may be null.
  unfoldable pub push : Ring A → Option A → Option (Bool × Ring A)
  push rb none = some (false, rb)
  push rb (some x) = if not rb.mutex then some (false, rb) else push_locked rb x

  -- The option is what is copied to `*item`.
  unfoldable pub pop : Ring A → Option (Bool × Option A × Ring A)
  pop rb =
      if not rb.mutex
      then some (false, none, rb)
      else if is_empty_unsafe rb
      then some (false, none, rb)
      else checked (drop_first rb) (true, some (rb.buffer rb.read_idx), drop_first rb)
