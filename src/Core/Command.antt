-- ===== src/Core/Command.antt =====
-- `set_command` with its validity checks, `set_max_effort`, `set_controller_config`, the two calls on
-- the tactile bias and `command_mode` (cpp/src/hand_core/hand_core.cpp). `clamp` is the workspace
-- clamp of the joint commands.
use aidin_hand2_sdk.Base.{
  ℕ, ◌+◌, ◌-◌, ◌%◌, ◌^◌, Bool, true, false, not, ◌&&◌, ◌||◌, if◌then◌else◌, some,
}
use aidin_hand2_sdk.Base.Arrays.{all_below}
use aidin_hand2_sdk.Protocol.Frames.{actuator_count}
use aidin_hand2_sdk.Types.Error.{
  ErrorCode, ok, invalid_argument, wrong_call_order, communication_lost, is_ok,
}
use aidin_hand2_sdk.Lifecycle.Action.{HandAction, set_command, set_tactile_bias, reset_tactile_bias}
use aidin_hand2_sdk.Control.Command.{
  Doubles, Targets, ControllerCommand, idle, joint_position, joint_impedance, actuator_position,
  actuator_effort,
}
use aidin_hand2_sdk.Control.Tactile.{TactileBiasRequest, set, reset}
use aidin_hand2_sdk.Core.State.{Hand, ControllerConfig, stage, check_allowed}

pub data CommandMode : Type 0 where
  idle_mode joint_position_mode joint_impedance_mode actuator_position_mode actuator_effort_mode :
      CommandMode

-- The largest and the smallest int32_t, as bit patterns.
abbrev int32_max : ℕ
int32_max = 2 ^ 31 - 1

abbrev int32_min : ℕ
int32_min = 2 ^ 31

-- kMaxEffortLimit.
abbrev pub max_effort_limit : ℕ
max_effort_limit = 2000

abbrev pub is_set_request : TactileBiasRequest → Bool
is_set_request set = true
is_set_request _ = false

module _ (doubles : Doubles) where
  unfoldable pub all_finite : Targets doubles → Bool
  all_finite values = all_below actuator_count (λ i. doubles.is_finite (values i))

  -- Within the range of int32_t.
  unfoldable pub fits_int32 : doubles.Double → Bool
  fits_int32 target = not (
      doubles.less target (doubles.of_int32 int32_min)
      || doubles.less (doubles.of_int32 int32_max) target)

  -- Idle is not checked.
  unfoldable pub is_command_valid : ControllerCommand doubles → Bool
  is_command_valid idle = true
  is_command_valid (joint_position target) = all_finite target
  is_command_valid (joint_impedance target) = all_finite target
  is_command_valid (actuator_position target) =
      all_finite target && all_below actuator_count (λ i. fits_int32 (target i))
  is_command_valid (actuator_effort target) = all_finite target

  abbrev pub is_idle : ControllerCommand doubles → Bool
  is_idle idle = true
  is_idle _ = false

  module _ (clamp : Targets doubles → Targets doubles) where
    -- The joint commands are pulled into the workspace, unless that is switched off.
    unfoldable pub clamp_command : Bool → ControllerCommand doubles → ControllerCommand doubles
    clamp_command workspace_clamp (joint_position target) =
        joint_position (if workspace_clamp then clamp target else target)
    clamp_command workspace_clamp (joint_impedance target) =
        joint_impedance (if workspace_clamp then clamp target else target)
    clamp_command workspace_clamp command = command

    unfoldable pub drop_invalid_command : Hand doubles → Hand doubles
    drop_invalid_command h = record h {
      count_nan_command = (h.count_nan_command + 1) % 2 ^ 64;
      last_command_was_nan = true;
    }

    -- The five overloads; the one for Idle needs no homed hand and leaves the flag alone.
    unfoldable pub set_hand_command :
        ControllerCommand doubles → Hand doubles → Hand doubles × ErrorCode
    set_hand_command command h =
        let checked = check_allowed set_command (not (is_idle command)) h in
        if not (is_ok checked)
        then (h, checked)
        else if is_idle command
        then (stage command h, ok)
        else if not (is_command_valid command)
        then (drop_invalid_command h, ok)
        else (
          stage (clamp_command h.workspace_clamp command)
              (record h { last_command_was_nan = false }),
          ok,
        )

  unfoldable pub set_max_effort : Targets doubles → Hand doubles → Hand doubles × ErrorCode
  set_max_effort limit h =
      let clamped : Targets doubles =
        λ i. doubles.clamp (limit i) doubles.zero (doubles.of_int32 max_effort_limit) in
      if h.request_destroy
      then (h, wrong_call_order)
      else if not (all_finite limit)
      then (h, invalid_argument)
      else (
        record h {
          max_effort_pct = clamped;
          command_buffer =
              some (record { controller = h.core.staging_command; max_effort_pct = clamped });
        },
        ok,
      )

  -- !std::isfinite(value) || value < 0.0.
  unfoldable pub is_bad : doubles.Double → Bool
  is_bad value = not (doubles.is_finite value) || doubles.less value doubles.zero

  unfoldable pub set_controller_config :
      ControllerConfig doubles → Hand doubles → Hand doubles × ErrorCode
  set_controller_config config h =
      if h.request_destroy
      then (h, wrong_call_order)
      else if is_bad config.cutoff_freq || is_bad config.deadband
      then (h, invalid_argument)
      else if not (
          all_below actuator_count
            (λ i. not (is_bad (config.stiffness i) || is_bad (config.damping i))))
      then (h, invalid_argument)
      else (record h { controller_config = config; controller_config_buffer = some config }, ok)

  unfoldable pub request_bias :
      TactileBiasRequest → HandAction → Hand doubles → Hand doubles × ErrorCode
  request_bias request action h =
      let checked = check_allowed action true h in
      if not (is_ok checked)
      then (h, checked)
      else if is_set_request request && not h.core.check_communication
      then (h, communication_lost)
      else (record h { request_tactile_bias = request }, ok)

  unfoldable pub set_bias : Hand doubles → Hand doubles × ErrorCode
  set_bias h = request_bias set set_tactile_bias h

  unfoldable pub reset_bias : Hand doubles → Hand doubles × ErrorCode
  reset_bias h = request_bias reset reset_tactile_bias h

  unfoldable pub command_mode : Hand doubles → CommandMode
  command_mode h = elim h.core.staging_command [
    | idle ↦ idle_mode
    | joint_position target ↦ joint_position_mode
    | joint_impedance target ↦ joint_impedance_mode
    | actuator_position target ↦ actuator_position_mode
    | actuator_effort target ↦ actuator_effort_mode
  ]
