-- ===== src/Power/States.antt =====
-- The task of components/power_manager/src/power_manager.c: the state that its commands lead to, and the
-- window that the runtime manager opens next.
use mathlib.Core.Path.{subst}
use minimal_watch_firmware_e.Base.{
  ◌≡◌, refl, ap, sym, ◌∙◌, Bool, true, false, List, [], ◌∷◌, ◌++◌, if◌then◌else◌, Bool-cases, inl,
  inr,
}
use minimal_watch_firmware_e.Runtime.{Runtime, RuntimeState, background_active}
use minimal_watch_firmware_e.Runtime as R
use minimal_watch_firmware_e.Runtime.Platform.{Os}
use minimal_watch_firmware_e.Runtime.Window.{set_active_state}
use minimal_watch_firmware_e.Power.{
  PowerState, ui_active, background, sleep, PowerCmd, ui_sleep, ui_wake, shutdown, Effect,
  sleeps_ui, resumes_ui, background_mode, active_mode, sets_active, sends, notifies, acquires_lock,
  releases_lock, Power, react, power_step,
}

-- `power_task_fn` on the commands that it receives, until it deletes its task.
unfoldable pub power_task_fn : List PowerCmd → Power → Power × List Effect
power_task_fn [] p = (p, [])
power_task_fn (cmd ∷ cmds) p =
    let (p', done) = power_step cmd p in
    let (last, more) = power_task_fn cmds p' in
    if p'.power_task then (last, done ++ more) else (p', done)

-- Where commands lead: to where the last of them says, or to sleep at the first shutdown.
abbrev pub leads_to : PowerState → List PowerCmd → PowerState
leads_to s [] = s
leads_to s (ui_sleep ∷ cmds) = leads_to background cmds
leads_to s (ui_wake ∷ cmds) = leads_to ui_active cmds
leads_to s (shutdown ∷ cmds) = sleep

-- The runtime manager's next window is one of the interface exactly if the interface is active.
abbrev pub InStep : PowerState → RuntimeState → Type 0
InStep ui_active s = s ≡ R.ui_active
InStep background s = s ≡ background_active
InStep sleep s = Unit {0}

abbrev pub runs : PowerState → Bool
runs ui_active = true
runs background = true
runs sleep = false

more_cmds :
    (s : PowerState) (c : PowerCmd) (cmds : List PowerCmd)
    → runs (leads_to s (c ∷ [])) ≡ true
    → leads_to s (c ∷ cmds) ≡ leads_to (leads_to s (c ∷ [])) cmds
more_cmds s ui_sleep cmds h = refl
more_cmds s ui_wake cmds h = refl
more_cmds s shutdown cmds h = cc

no_more_cmds :
    (s : PowerState) (c : PowerCmd) (cmds : List PowerCmd)
    → runs (leads_to s (c ∷ [])) ≡ false
    → leads_to s (c ∷ cmds) ≡ leads_to s (c ∷ [])
no_more_cmds s ui_sleep cmds h = cc
no_more_cmds s ui_wake cmds h = cc
no_more_cmds s shutdown cmds h = refl

module _ {os : Os} where
  -- What the runtime manager is told by the effects, in order.
  abbrev pub tell : Effect → Runtime os → Runtime os
  tell (sets_active ui) r = set_active_state os ui r
  tell sleeps_ui r = r
  tell resumes_ui r = r
  tell background_mode r = r
  tell active_mode r = r
  tell (sends c) r = r
  tell (notifies n) r = r
  tell acquires_lock r = r
  tell releases_lock r = r

  abbrev pub tell_all : List Effect → Runtime os → Runtime os
  tell_all [] r = r
  tell_all (x ∷ l) r = tell_all l (tell x r)

  tell_all-append :
      (xs ys : List Effect) (r : Runtime os) → tell_all (xs ++ ys) r ≡ tell_all ys (tell_all xs r)
  tell_all-append [] ys r = refl
  tell_all-append (x ∷ xs) ys r = tell_all-append xs ys (tell x r)

  -- One command, of a task that was not shut down.
  abbrev Follows : PowerState → PowerCmd → Power × List Effect → Runtime os → Type 0
  Follows s c (p, l) r =
      (p.state ≡ leads_to s (c ∷ []))
      × InStep (leads_to s (c ∷ [])) (tell_all l r).work_state
      × (p.power_task ≡ runs (leads_to s (c ∷ [])))

  react-Follows :
      (c : PowerCmd) (s : PowerState) (p : Power) (r : Runtime os)
      → p.state ≡ s
      → p.power_task ≡ true
      → runs s ≡ true
      → InStep s r.work_state
      → Follows s c (react c s p) r
  unfolding set_active_state
  react-Follows ui_sleep ui_active p r e t a h = (refl, refl, t)
  react-Follows ui_sleep background p r e t a h = (e, h, t)
  react-Follows ui_wake ui_active p r e t a h = (e, h, t)
  react-Follows ui_wake background p r e t a h = (refl, refl, t)
  react-Follows shutdown ui_active p r e t a h = (refl, tt, refl)
  react-Follows shutdown background p r e t a h = (refl, tt, refl)
  react-Follows c sleep p r e t a h = cc

  -- From a state that is not sleep, with the task there and the runtime manager in step (its next
  -- window is one of the interface exactly if the state is that of the interface), after any commands
  -- the state is where they lead: where the last command before a shutdown says, or sleep at the first
  -- shutdown; and the runtime manager, told all that the task tells it, is in step again, unless the
  -- state is sleep.
  pub task_follows :
      (cmds : List PowerCmd) (p : Power) (r : Runtime os)
      → p.power_task ≡ true
      → runs p.state ≡ true
      → InStep p.state r.work_state
      → ((power_task_fn cmds p).0.state ≡ leads_to p.state cmds)
        × InStep (leads_to p.state cmds) (tell_all (power_task_fn cmds p).1 r).work_state
  unfolding power_task_fn power_step
  task_follows [] p r t a h = (refl, h)
  task_follows (c ∷ cmds) p r t a h =
      let s : PowerState = leads_to p.state (c ∷ []) in
      let (to, in_step, alive) = react-Follows c p.state p r refl t a h in
      let p' = (react c p.state p).0 in
      let done = (react c p.state p).1 in
      elim (Bool-cases (runs s)) [
        | inl on ↦
            let stays = more_cmds p.state c cmds on in
            let (rest, last) =
              task_follows cmds p' (tell_all done r) (alive ∙ on) (ap runs to ∙ on) (
                subst (λ (x : PowerState). InStep x (tell_all done r).work_state) (sym to)
                  in_step) in
            let ends : leads_to p'.state cmds ≡ leads_to p.state (c ∷ cmds) =
              ap (λ (x : PowerState). leads_to x cmds) to ∙ sym stays in
            let same =
              ap (λ (x : Runtime os). x.work_state)
                (sym (tell_all-append done (power_task_fn cmds p').1 r)) in
            simp (alive, on)
              (
                rest ∙ ends,
                subst
                    (λ (x : PowerState).
                      InStep x (tell_all (done ++ (power_task_fn cmds p').1) r).work_state)
                    ends
                    (subst (λ (x : RuntimeState). InStep (leads_to p'.state cmds) x) same last),
              )
        | inr off ↦
            let ends = no_more_cmds p.state c cmds off in
            simp (alive, off)
              (
                to ∙ sym ends,
                subst (λ (x : PowerState). InStep x (tell_all done r).work_state) (sym ends)
                    in_step,
              )
      ]
