-- ===== src/Ring/Tests.antt =====
-- Runs of ring_buffer.c at concrete rings.
use minimal_watch_firmware_e.Base.{ℕ, ◌≡◌, refl, true, none, some, List, [], ◌∷◌, arith, store}
use minimal_watch_firmware_e.Ring.{Ring, Policy, drop_oldest}
use minimal_watch_firmware_e.Ring.Queue
use minimal_watch_firmware_e.Ring.Queue.{Op, pushes, pops, clears}
use minimal_watch_firmware_e.Ring.Valid.{IsLive}
use minimal_watch_firmware_e.Ring.Refine.{contents}
use minimal_watch_firmware_e.Ring.Run
use minimal_watch_firmware_e.Ring.Run.{init-IsLive, run_refines, is_empty_refines}

-- A full ring of two slots whose oldest element, 5, stands in the second slot.
abbrev full_ring : Policy → Ring ℕ
full_ring policy = record {
  buffer = store (store (λ _. 0) 1 5) 0 6;
  element_size = 4;
  capacity = 2;
  read_idx = 1;
  write_idx = 1;
  count = 2;
  mutex = true;
  overflow_policy = policy;
}

abbrev held : List ℕ
held = 5 ∷ 6 ∷ []

full_ring-IsLive : (policy : Policy) → IsLive 2 policy (full_ring policy)
full_ring-IsLive policy = record {
  valid = omega arith;
  locked_by = refl;
  sized = refl;
  ruled = refl;
}

-- The oldest element is lost, and the queue wraps round the end of the storage.
overflow :
    Queue.run 2 drop_oldest held (pushes 7 ∷ pops ∷ [])
    ≡ ((true, none) ∷ (true, some 6) ∷ [], 7 ∷ [])
unfolding Queue.run Queue.push_oldest Queue.pop
overflow = refl

run_refines_example :
    (rb' : Ring ℕ) × (Run.run (full_ring drop_oldest) (pushes 7 ∷ pops ∷ clears ∷ [])
      ≡ some ((Queue.run 2 drop_oldest held (pushes 7 ∷ pops ∷ clears ∷ [])).0, rb'))
    × IsLive 2 drop_oldest rb'
    × (contents rb' ≡ (Queue.run 2 drop_oldest held (pushes 7 ∷ pops ∷ clears ∷ [])).1)
run_refines_example =
    run_refines (pushes 7 ∷ pops ∷ clears ∷ []) {rb = full_ring drop_oldest}
      (full_ring-IsLive drop_oldest)
