-- ===== src/Steps.antt =====
-- components/motion_stage1_engine/src/step_detection_algo.c: which of the steps that were seen in a
-- window of samples are counted. The detection itself works on floating point numbers and is left out.
pub mod Counting
mod Tests
use minimal_watch_firmware_e.Base.{
  ℕ, ◌+◌, Bool, true, false, ltb, leb, ◌==◌, if◌then◌else◌, u8, u16, u32,
}

-- The fields of `stage1_ctx_t` that tell steps from other motion.
pub record StepState : Type 0 where
  pub is_walking : Bool
  pub pending_steps : ℕ
  pub samples_since_valid_step : ℕ

-- The two limits of `stage1_tuning_params_t` that are used here. They are of type int, and not
-- negative.
pub record Limits : Type 0 where
  pub max_samples : ℕ
  pub min_steps : ℕ

-- A window without steps: `samples_since_valid_step` goes up to 65535 at most, and walking ends when
-- it is long enough.
abbrev pub without_steps : Limits → ℕ → StepState → StepState
without_steps params samples s =
    let elapsed = u32 (s.samples_since_valid_step + samples) in
    let counted = if ltb 65535 elapsed then 65535 else u16 elapsed in
    if leb params.max_samples counted
    then record { is_walking = false; pending_steps = 0; samples_since_valid_step = counted }
    else record s { samples_since_valid_step = counted }

-- `pending_steps` with the new steps, at most 255.
abbrev pub pending_with : ℕ → ℕ → ℕ
pending_with pending window_steps =
    if ltb 255 (u16 (pending + window_steps)) then 255 else u8 (u16 (pending + window_steps))

-- `stage1_derive_accepted_steps_from_window`
unfoldable pub derive_accepted_steps : Limits → ℕ → ℕ → StepState → ℕ × StepState
derive_accepted_steps params window_steps samples s =
    let fresh = record s { samples_since_valid_step = 0 } in
    let pending = pending_with s.pending_steps window_steps in
    if window_steps == 0
    then (0, without_steps params samples s)
    else if s.is_walking
    then (window_steps, record fresh { pending_steps = 0 })
    else if leb params.min_steps pending
    then (pending, record fresh { is_walking = true; pending_steps = 0 })
    else (0, record fresh { pending_steps = pending })
