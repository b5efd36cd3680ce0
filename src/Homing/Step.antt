-- ===== src/Homing/Step.antt =====
-- `HomingSequence::step` of homing_sequence.cpp: one function for each case of its switch, and the
-- snapshot behind the switch. A case returns the sequence, the command frames and the mode.
use aidin_hand2_sdk.Base.{◌+◌, ◌-◌, Bool, true, false, not, ◌&&◌, ◌||◌, ltb, leb, if◌then◌else◌}
use aidin_hand2_sdk.Base.Arrays.{Array, fill, all_below}
use aidin_hand2_sdk.Base.Bits.{is_set}
use aidin_hand2_sdk.Cia402.{
  ControlWordMode, enable, switch_on, homing, operation_enabled, homing_attained,
}
use aidin_hand2_sdk.Protocol.Frames.{
  StateFrames, CommandFrames, actuator_count, homing_mode, cst_mode,
}
use aidin_hand2_sdk.Homing.Sequence.{
  HomingSequence, HomingOutcome, Stage, succeeded, enable_timeout, clear_timeout, enabling,
  clear_disable, clear_re_enable, preload, settle, trigger_wait, preload_effort, preload_cycles,
  settle_cycles, edge_cycles, enable_timeout_cycles, clear_timeout_cycles, enter_stage, any_present,
  fill_homing_command, all_present_operation_enabled, no_present_operation_enabled,
  all_present_homing_attained_clear, fail_with, evaluate_homing_trigger,
}

abbrev pub Result : Type 0
Result = HomingSequence × CommandFrames × ControlWordMode

-- Each cycle latches whoever reached Operation Enabled.
unfoldable pub latch_present : StateFrames → HomingSequence → Array Bool
latch_present rx s i =
    if s.disabled i then s.present i else s.present i || is_set (rx.status_word i) operation_enabled

unfoldable pub all_latched : HomingSequence → Bool
all_latched s = all_below actuator_count (λ i. s.disabled i || s.present i)

unfoldable pub step_enabling : StateFrames → CommandFrames → HomingSequence → Result
step_enabling rx out s =
    let t = record s { present = latch_present rx s } in
    (
      if all_latched t && any_present t.present
          then enter_stage clear_disable t
          else if leb enable_timeout_cycles t.stage_cycle
          then if any_present t.present
            then enter_stage clear_disable t
            else fail_with enable_timeout (fill true) t
          else t,
      fill_homing_command out (λ i. not (s.disabled i)) cst_mode 0,
      enable,
    )

unfoldable pub step_clear_disable : StateFrames → CommandFrames → HomingSequence → Result
step_clear_disable rx out s = (
  if no_present_operation_enabled rx s.present
      then enter_stage clear_re_enable s
      else if leb clear_timeout_cycles s.stage_cycle
      then fail_with clear_timeout (λ i. s.present i && is_set (rx.status_word i) operation_enabled)
          s
      else s,
  fill_homing_command out s.present homing_mode 0,
  switch_on,
)

unfoldable pub step_clear_re_enable : StateFrames → CommandFrames → HomingSequence → Result
step_clear_re_enable rx out s = (
  if all_present_operation_enabled rx s.present && all_present_homing_attained_clear rx s.present
      then enter_stage preload s
      else if leb clear_timeout_cycles s.stage_cycle
      then fail_with clear_timeout
          (λ i.
            s.present i
            && (not (is_set (rx.status_word i) operation_enabled)
                || is_set (rx.status_word i) homing_attained))
          s
      else s,
  fill_homing_command out s.present homing_mode 0,
  enable,
)

unfoldable pub step_preload : CommandFrames → HomingSequence → Result
step_preload out s = (
  if leb preload_cycles s.stage_cycle then enter_stage settle s else s,
  fill_homing_command out s.present cst_mode preload_effort,
  enable,
)

unfoldable pub step_settle : CommandFrames → HomingSequence → Result
step_settle out s = (
  if leb settle_cycles s.stage_cycle then enter_stage trigger_wait s else s,
  fill_homing_command out s.present
      (if ltb (settle_cycles - edge_cycles) s.stage_cycle then homing_mode else cst_mode)
      preload_effort,
  enable,
)

unfoldable pub step_trigger_wait : StateFrames → CommandFrames → HomingSequence → Result
step_trigger_wait rx out s =
    let (t, done) = evaluate_homing_trigger rx s in
    (
      if done then record t { outcome = succeeded; active = false } else t,
      fill_homing_command out s.present homing_mode preload_effort,
      homing,
    )

-- The switch over the stage the cycle began in.
unfoldable pub step_stage : Stage → StateFrames → CommandFrames → HomingSequence → Result
step_stage enabling rx out s = step_enabling rx out s
step_stage clear_disable rx out s = step_clear_disable rx out s
step_stage clear_re_enable rx out s = step_clear_re_enable rx out s
step_stage preload rx out s = step_preload out s
step_stage settle rx out s = step_settle out s
step_stage trigger_wait rx out s = step_trigger_wait rx out s

unfoldable pub is_succeeded : HomingOutcome → Bool
is_succeeded succeeded = true
is_succeeded _ = false

-- The snapshot taken when the cycle ends the sequence in a failure.
unfoldable pub record_failure : Bool → Stage → StateFrames → HomingSequence → HomingSequence
record_failure was_active entry_stage rx s =
    if was_active && not s.active && not (is_succeeded s.outcome)
    then record s {
      failed_stage = entry_stage;
      failed_status_snapshot = rx.status_word;
      failed_position_snapshot = rx.actual_position;
    }
    else s

unfoldable pub step : StateFrames → CommandFrames → HomingSequence → Result
step rx out s =
    let (t, frames, mode) =
      step_stage s.stage rx out (record s { stage_cycle = s.stage_cycle + 1 }) in
    (record_failure s.active s.stage rx t, frames, mode)
