-- ===== src/Runtime/Platform.antt =====
-- What components/runtime_manager uses of FreeRTOS and of ESP-IDF: queues and one-shot timers.
use minimal_watch_firmware_e.Base.{
  ℕ, Bool, true, false, Option, none, some, List, [], ◌∷◌, ◌++◌, ◌≡◌, ltb, length, if◌then◌else◌,
}

-- `runtime_work_type_t`
pub data WorkType : Type 0 where
  system user : WorkType

-- `runtime_work_item_t`. A handler is its address, 0 for NULL. The payload is read as words, and
-- ends with the last that was written.
pub record WorkItem : Type 0 where
  pub handler : ℕ
  pub type : WorkType
  pub arg_payload : List ℕ
  pub priority : ℕ

pub record Os : Type 1 where
  pub Queue : Type 0
  pub Timer : Type 0
  -- `xQueueCreate`, `xQueueSend` and `xQueueReceive` that do not wait, `xQueueReset` and
  -- `uxQueueMessagesWaiting`
  pub new_queue : ℕ → Option Queue
  pub send : WorkItem → Queue → Bool × Queue
  pub receive : Queue → Option (WorkItem × Queue)
  pub reset : Queue → Queue
  pub waiting : Queue → ℕ
  -- `esp_timer_create`, `esp_timer_start_once` at a time, `esp_timer_stop` and
  -- `esp_timer_is_active`
  pub new_timer : Timer
  pub start_once : (now duration : ℕ) → Timer → Timer
  pub stop : Timer → Timer
  pub is_active : Timer → Bool

-- What is documented of them.
pub record Laws (os : Os) : Type 0 where
  pub items : os.Queue → List WorkItem
  pub capacity : os.Queue → ℕ
  pub new_empty : (n : ℕ) (q : os.Queue) → os.new_queue n ≡ some q → items q ≡ []
  pub new_capacity : (n : ℕ) (q : os.Queue) → os.new_queue n ≡ some q → capacity q ≡ n
  pub items-send :
      (x : WorkItem) (q : os.Queue)
      → items (os.send x q).1
        ≡ (if ltb (length (items q)) (capacity q) then items q ++ x ∷ [] else items q)
  pub was_sent :
      (x : WorkItem) (q : os.Queue) → (os.send x q).0 ≡ ltb (length (items q)) (capacity q)
  pub capacity-send : (x : WorkItem) (q : os.Queue) → capacity (os.send x q).1 ≡ capacity q
  pub receive_empty : (q : os.Queue) → items q ≡ [] → os.receive q ≡ none
  pub receive_first :
      (q : os.Queue) (x : WorkItem) (l : List WorkItem)
      → items q ≡ x ∷ l
      → (q' : os.Queue) × (os.receive q ≡ some (x, q'))
        × (items q' ≡ l)
        × (capacity q' ≡ capacity q)
  pub items-reset : (q : os.Queue) → items (os.reset q) ≡ []
  pub capacity-reset : (q : os.Queue) → capacity (os.reset q) ≡ capacity q
  pub waiting_lem : (q : os.Queue) → os.waiting q ≡ length (items q)
  pub new_inactive : os.is_active os.new_timer ≡ false
  pub active-start : (now d : ℕ) (t : os.Timer) → os.is_active (os.start_once now d t) ≡ true
  pub active-stop : (t : os.Timer) → os.is_active (os.stop t) ≡ false

-- The same calls through a handle that may be NULL: a timer's then return an error and do nothing.
module _ (os : Os) where
  abbrev pub is_active : Option os.Timer → Bool
  is_active none = false
  is_active (some t) = os.is_active t

  abbrev pub stop : Option os.Timer → Option os.Timer
  stop none = none
  stop (some t) = some (os.stop t)

  abbrev pub start_once : (now duration : ℕ) → Option os.Timer → Option os.Timer
  start_once now d none = none
  start_once now d (some t) = some (os.start_once now d t)

  -- `init_timer` and `safe_timer_cleanup` of src/runtime_utils.c
  abbrev pub init_timer : Option os.Timer → Option os.Timer
  init_timer none = some os.new_timer
  init_timer (some t) = some t

  -- What the deletion answers makes no difference to the handle.
  abbrev pub safe_timer_cleanup : (deleted : Bool) → Option os.Timer → Option os.Timer
  safe_timer_cleanup deleted none = none
  safe_timer_cleanup true (some t) = none
  safe_timer_cleanup false (some t) = none
