-- ===== src/Homing/Sequence.antt =====
-- The state and operations of `HomingSequence` (homing_sequence.hpp and .cpp). A method returns the
-- new sequence; an `out` parameter is returned beside it. A `long` counter is a
-- number; Homing/Bounds.antt is about their range.
use aidin_hand2_sdk.Base.{ℕ, ◌-◌, ◌^◌, Bool, true, false, not, ◌&&◌, ◌||◌, leb, if◌then◌else◌}
use aidin_hand2_sdk.Base.Arrays.{Array, fill, all_below, any_below}
use aidin_hand2_sdk.Base.Bits.{is_set}
use aidin_hand2_sdk.Cia402.{operation_enabled, homing_attained, homing_error}
use aidin_hand2_sdk.Protocol.Frames.{StateFrames, CommandFrames, actuator_count}

pub data HomingOutcome : Type 0 where
  in_progress succeeded enable_timeout clear_timeout homing_failed trigger_timeout : HomingOutcome

pub data HomingPhase : Type 0 where
  preparing preloading_to_hard_stop setting_origin : HomingPhase

unfoldable pub homing_failure_phase : HomingOutcome → HomingPhase
homing_failure_phase enable_timeout = preparing
homing_failure_phase clear_timeout = preparing
homing_failure_phase trigger_timeout = setting_origin
homing_failure_phase homing_failed = setting_origin
homing_failure_phase in_progress = preparing
homing_failure_phase succeeded = preparing

pub data Stage : Type 0 where
  enabling clear_disable clear_re_enable preload settle trigger_wait : Stage

-- int16_t -800, as its bit pattern.
abbrev pub preload_effort : ℕ
preload_effort = 2 ^ 16 - 800

abbrev pub max_effort_limit : ℕ
max_effort_limit = 1000

abbrev pub preload_cycles : ℕ
preload_cycles = 2000

abbrev pub settle_cycles : ℕ
settle_cycles = 1000

abbrev pub edge_cycles : ℕ
edge_cycles = 1000

abbrev pub enable_timeout_cycles : ℕ
enable_timeout_cycles = 2000

abbrev pub clear_timeout_cycles : ℕ
clear_timeout_cycles = 2000

abbrev pub trigger_timeout_cycles : ℕ
trigger_timeout_cycles = 2000

pub record HomingSequence : Type 0 where
  pub active : Bool
  pub stage : Stage
  pub stage_cycle : ℕ
  pub stop_hold_cycle : ℕ
  pub outcome : HomingOutcome
  pub disabled : Array Bool
  pub present : Array Bool
  pub in_progress_seen : Array Bool
  pub attained : Array Bool
  pub failed : Array Bool
  pub failed_stage : Stage
  pub failed_status_snapshot : Array ℕ
  pub failed_position_snapshot : Array ℕ

-- The member initialisers.
unfoldable pub new_sequence : HomingSequence
new_sequence = record {
  active = false;
  stage = enabling;
  stage_cycle = 0;
  stop_hold_cycle = 0;
  outcome = in_progress;
  disabled = fill false;
  present = fill false;
  in_progress_seen = fill false;
  attained = fill false;
  failed = fill false;
  failed_stage = enabling;
  failed_status_snapshot = fill 0;
  failed_position_snapshot = fill 0;
}

unfoldable pub enter_stage : Stage → HomingSequence → HomingSequence
enter_stage next s = record s { stage = next; stage_cycle = 0; stop_hold_cycle = 0 }

unfoldable pub start : Array Bool → HomingSequence → HomingSequence
unfolding enter_stage
start mask s = enter_stage enabling (record s {
  active = true;
  outcome = in_progress;
  disabled = mask;
  present = fill false;
  in_progress_seen = fill false;
  attained = fill false;
  failed = fill false;
})

unfoldable pub cancel : HomingSequence → HomingSequence
cancel s = record s { active = false }

unfoldable pub phase_of_stage : Stage → HomingPhase
phase_of_stage enabling = preparing
phase_of_stage clear_disable = preparing
phase_of_stage clear_re_enable = preparing
phase_of_stage preload = preloading_to_hard_stop
phase_of_stage settle = setting_origin
phase_of_stage trigger_wait = setting_origin

unfoldable pub current_phase : HomingSequence → HomingPhase
unfolding phase_of_stage
current_phase s = phase_of_stage s.stage

unfoldable pub any_present : Array Bool → Bool
any_present present = any_below actuator_count present

unfoldable pub fill_homing_command : CommandFrames → Array Bool → ℕ → ℕ → CommandFrames
fill_homing_command frames present mode target_effort = record frames {
  mode_of_operation = λ i. mode;
  target_effort = λ i. if present i then target_effort else 0;
  target_position = λ i. 0;
  max_effort = λ i. max_effort_limit;
  homing_method = λ i. 0;
}

unfoldable pub all_present_operation_enabled : StateFrames → Array Bool → Bool
all_present_operation_enabled rx present =
    all_below actuator_count (λ i. not (present i) || is_set (rx.status_word i) operation_enabled)

unfoldable pub no_present_operation_enabled : StateFrames → Array Bool → Bool
no_present_operation_enabled rx present =
    all_below actuator_count
      (λ i. not (present i) || not (is_set (rx.status_word i) operation_enabled))

unfoldable pub all_present_homing_attained_clear : StateFrames → Array Bool → Bool
all_present_homing_attained_clear rx present =
    all_below actuator_count
      (λ i. not (present i) || not (is_set (rx.status_word i) homing_attained))

-- The failure of one stage: the outcome and the actuators that caused it end the sequence.
abbrev pub fail_with : HomingOutcome → Array Bool → HomingSequence → HomingSequence
fail_with why culprits s = record s { failed = culprits; outcome = why; active = false }

-- `evaluate_homing_trigger` of one actuator that is present: the three latches after its loop body.
abbrev pub saw_in_progress : HomingSequence → ℕ → ℕ → Bool
saw_in_progress s status i = s.in_progress_seen i || not (is_set status homing_attained)

abbrev pub saw_rising_edge : HomingSequence → ℕ → ℕ → Bool
saw_rising_edge s status i =
    s.attained i
    || (is_set status homing_attained && s.in_progress_seen i && not (is_set status homing_error))

-- The loop of `evaluate_homing_trigger`: each present actuator updates its own entries.
unfoldable pub latch_trigger : StateFrames → HomingSequence → HomingSequence
latch_trigger rx s = record s {
  failed =
      λ i. if s.present i then s.failed i || is_set (rx.status_word i) homing_error else s.failed i;
  in_progress_seen =
      λ i. if s.present i then saw_in_progress s (rx.status_word i) i else s.in_progress_seen i;
  attained = λ i. if s.present i then saw_rising_edge s (rx.status_word i) i else s.attained i;
}

unfoldable pub any_homing_error : StateFrames → Array Bool → Bool
any_homing_error rx present =
    any_below actuator_count (λ i. present i && is_set (rx.status_word i) homing_error)

unfoldable pub all_attained : HomingSequence → Bool
all_attained s = all_below actuator_count (λ i. not (s.present i) || s.attained i)

unfoldable pub evaluate_homing_trigger : StateFrames → HomingSequence → HomingSequence × Bool
unfolding latch_trigger
evaluate_homing_trigger rx s =
    let t = latch_trigger rx s in
    if any_homing_error rx s.present
    then (record t { outcome = homing_failed; active = false }, false)
    else if leb trigger_timeout_cycles t.stage_cycle && not (all_attained t)
    then (
      fail_with trigger_timeout (λ i. t.failed i || (t.present i && not (t.attained i))) t,
      false,
    )
    else (t, all_attained t)
