-- ===== src/Homing/Order.antt =====
-- The order of the homing stages of homing_sequence.cpp, and what each commands.
use aidin_hand2_sdk.Base.{ℕ, ◌+◌, ◌≡◌, refl, ◌⊎◌, if◌then◌else◌, arith}
use aidin_hand2_sdk.Cia402.{ControlWordMode, enable, switch_on, homing}
use aidin_hand2_sdk.Protocol.Frames.{StateFrames, CommandFrames}
use aidin_hand2_sdk.Homing.Sequence.{
  HomingSequence, Stage, enabling, clear_disable, clear_re_enable, preload, settle, trigger_wait,
  enter_stage, evaluate_homing_trigger, latch_trigger, fill_homing_command, preload_effort,
}
use aidin_hand2_sdk.Homing.Step.{
  step, step_stage, step_enabling, step_clear_disable, step_clear_re_enable, step_preload,
  step_settle, step_trigger_wait, record_failure,
}

-- The header's list of stages, each behind the one above it.
pub data Follows : Stage → Stage → Type 0 where
  disable_after_enable : Follows enabling clear_disable
  re_enable_after_disable : Follows clear_disable clear_re_enable
  push_after_clear : Follows clear_re_enable preload
  settle_after_push : Follows preload settle
  trigger_after_settle : Follows settle trigger_wait

-- The control word mode and the push that a stage sends.
abbrev pub stage_mode : Stage → ControlWordMode
stage_mode clear_disable = switch_on
stage_mode trigger_wait = homing
stage_mode _ = enable

abbrev pub stage_push : Stage → ℕ
stage_push preload = preload_effort
stage_push settle = preload_effort
stage_push trigger_wait = preload_effort
stage_push _ = 0

ruleset follows = (
  disable_after_enable, re_enable_after_disable, push_after_clear, settle_after_push,
  trigger_after_settle,
)

module _ (rx : StateFrames) (out : CommandFrames) (s : HomingSequence) where
  abbrev Moves : Stage → HomingSequence → Type 0
  Moves g t = (t.stage ≡ g) ⊎ Follows g t.stage

  stage-Moves : (g : Stage) → s.stage ≡ g → Moves g (step_stage g rx out s).0
  unfolding step_stage step_enabling step_clear_disable step_clear_re_enable step_preload
      step_settle step_trigger_wait enter_stage evaluate_homing_trigger latch_trigger
  stage-Moves enabling e = grind (arith, follows)
  stage-Moves clear_disable e = grind (arith, follows)
  stage-Moves clear_re_enable e = grind (arith, follows)
  stage-Moves preload e = grind (arith, follows)
  stage-Moves settle e = grind (arith, follows)
  stage-Moves trigger_wait e = grind (arith, follows)

  stage_command :
      (g : Stage) (i : ℕ)
      → ((step_stage g rx out s).2 ≡ stage_mode g)
        × ((step_stage g rx out s).1.target_effort i ≡ (if s.present i then stage_push g else 0))
        × ((step_stage g rx out s).1.control_word i ≡ out.control_word i)
  unfolding step_stage step_enabling step_clear_disable step_clear_re_enable step_preload
      step_settle step_trigger_wait fill_homing_command
  stage_command enabling i = ground arith
  stage_command clear_disable i = ground arith
  stage_command clear_re_enable i = ground arith
  stage_command preload i = ground arith
  stage_command settle i = ground arith
  stage_command trigger_wait i = ground arith

-- A cycle stays in its stage or moves to the one behind it in the order Enable, ClearDisable,
-- ClearReEnable, Preload, Settle, TriggerWait; it sends SwitchOn (which drops the power stage) in
-- ClearDisable only and the homing trigger in TriggerWait only; it pushes with the preload effort in
-- the last three stages and with 0 in the others, and always with 0 an actuator that takes no part;
-- and it leaves the control words of the frames alone.
pub step-order :
    (rx : StateFrames) (out : CommandFrames) (s : HomingSequence) (i : ℕ)
    → (((step rx out s).0.stage ≡ s.stage) ⊎ Follows s.stage (step rx out s).0.stage)
      × ((step rx out s).2 ≡ stage_mode s.stage)
      × ((step rx out s).1.target_effort i ≡ (if s.present i then stage_push s.stage else 0))
      × ((step rx out s).1.control_word i ≡ out.control_word i)
unfolding step record_failure
step-order rx out s i =
    let counted : HomingSequence = record s { stage_cycle = s.stage_cycle + 1 } in
    ground (arith, stage-Moves rx out counted s.stage refl, stage_command rx out counted s.stage i)
