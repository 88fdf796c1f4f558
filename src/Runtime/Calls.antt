-- ===== src/Runtime/Calls.antt =====
-- components/runtime_manager/src/runtime_manager.c: what other components call, to schedule work
-- and to register hooks for the end of a window.
use minimal_watch_firmware_e.Base.{
  ℕ, zero, suc, ◌+◌, ◌-◌, Bool, true, false, not, ◌&&◌, ◌||◌, Option, none, some, ◌==◌, leb,
  if◌then◌else◌, ◌>>=◌, store,
}
use minimal_watch_firmware_e.Runtime.{grace_period, same_state, max_curfew_hooks, Env, Runtime}
use minimal_watch_firmware_e.Runtime.Platform.{Os, WorkItem}

abbrev pub is_null : {A : Type 0} → Option A → Bool
is_null none = true
is_null (some a) = false

-- The item is NULL or has no handler.
abbrev pub is_invalid : Option WorkItem → Bool
is_invalid none = true
is_invalid (some x) = x.handler == 0

-- The loop of `runtime_manager_unregister_hook`, from hook `i` on: the hooks, and whether the hook
-- was found.
unfoldable pub remove_loop : (left i count hook : ℕ) → (ℕ → ℕ) → Bool → (ℕ → ℕ) × Bool
remove_loop zero i count hook hooks found = (hooks, found)
remove_loop (suc left) i count hook hooks found =
    let success : Bool = if hooks i == hook then true else found in
    remove_loop left (i + 1) count hook
      (if success && not (i == count - 1) then store hooks i (hooks (i + 1)) else hooks) success

module _ (os : Os) where
  -- What is sent to a queue; `none` where there is no queue.
  abbrev pub send_to : WorkItem → Option os.Queue → Option (Bool × Option os.Queue)
  send_to x q = do d ← q; some ((os.send x d).0, some (os.send x d).1)

  -- The part of `schedule_user_work` under the lock, and of `schedule_system_work`.
  abbrev pub send_user : WorkItem → Runtime os → Option (Bool × Runtime os)
  send_user x r =
      if same_state r.state grace_period
      then (do d ← send_to x r.pending_user_work; some (d.0, record r { pending_user_work = d.1 }))
      else (do d ← send_to x r.user_work; some (d.0, record r { user_work = d.1 }))

  abbrev pub send_system : WorkItem → Runtime os → Option (Bool × Runtime os)
  send_system x r =
      if same_state r.state grace_period
      then (do
        d ← send_to x r.pending_system_work
        some (d.0, record r { pending_system_work = d.1 }))
      else (do d ← send_to x r.system_work; some (d.0, record r { system_work = d.1 }))

  -- The guards that both calls share.
  abbrev pub refuses_work : Option os.Queue → Option WorkItem → Runtime os → Bool
  refuses_work q item r =
      (not r.initialized || is_null q) || (is_invalid item || r.shutdown_initialized)

  -- `schedule_user_work` and `schedule_system_work`; without the lock the item is left out, and the
  -- answer is still true.
  unfoldable pub schedule_user_work :
      Env → Option WorkItem → Runtime os → Option (Bool × Runtime os)
  schedule_user_work e item r =
      if refuses_work r.user_work item r
      then some (false, r)
      else (do x ← item; (if e.locked then send_user x r else some (true, r)))

  unfoldable pub schedule_system_work :
      Env → Option WorkItem → Runtime os → Option (Bool × Runtime os)
  schedule_system_work e item r =
      if refuses_work r.system_work item r
      then some (false, r)
      else (do x ← item; (if e.locked then send_system x r else some (true, r)))

  -- `runtime_manager_register_hook`; a hook is its address, 0 for NULL.
  unfoldable pub register_hook : Env → ℕ → Runtime os → Bool × Runtime os
  register_hook e hook r =
      if not r.initialized || hook == 0
      then (false, r)
      else if r.shutdown_initialized
      then (false, r)
      else if e.locked
      then (if leb max_curfew_hooks r.active_hook_count then (false, r) else (
        true,
        record r {
          window_hooks = store r.window_hooks r.active_hook_count hook;
          active_hook_count = r.active_hook_count + 1;
        },
      ))
      else (true, r)

  -- `runtime_manager_unregister_hook`
  unfoldable pub unregister_hook : Env → ℕ → Runtime os → Bool × Runtime os
  unregister_hook e hook r =
      if not r.initialized || hook == 0
      then (false, r)
      else if e.locked
      then (let (hooks, found) =
            remove_loop r.active_hook_count 0 r.active_hook_count hook r.window_hooks false in
          if found
          then (
            true,
            record r {
              window_hooks = store hooks (r.active_hook_count - 1) 0;
              active_hook_count = r.active_hook_count - 1;
            },
          )
          else (false, record r { window_hooks = hooks }))
      else (false, r)
