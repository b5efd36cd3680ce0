-- ===== src/Core/Staging.antt =====
-- What `set_command` stages, and what `start_homing` does with a dead link
-- (cpp/src/hand_core/hand_core.cpp).
use aidin_hand2_sdk.Base.{
  ◌≡◌, ◌+◌, ◌%◌, ◌^◌, Bool, true, false, not, ◌&&◌, ◌||◌, arith, if◌then◌else◌,
}
use aidin_hand2_sdk.Types.Error.{ErrorCode, communication_lost, is_ok}
use aidin_hand2_sdk.Types.Lifecycle.{in_progress, is_running}
use aidin_hand2_sdk.Lifecycle.Action.{home}
use aidin_hand2_sdk.Control.Command.{Doubles, Targets, ControllerCommand}
use aidin_hand2_sdk.Core.State.{
  Hand, is_homed, stage, reset_command_to_idle, check_allowed, is_homing,
}
use aidin_hand2_sdk.Core.Operation.{start_homing, request_control}
use aidin_hand2_sdk.Core.Command.{is_command_valid, clamp_command, is_idle}

module _ (doubles : Doubles) (clamp : Targets doubles → Targets doubles)
    (command : ControllerCommand doubles) where
  -- Commands are taken only while the hand runs, and none but Idle before it is homed.
  abbrev pub takes_commands : Hand doubles → Bool
  takes_commands h =
      not h.request_destroy
      && is_running h.core.requested_lifecycle
      && is_running h.core.lifecycle
      && (is_idle doubles command || is_homed h.core.homing_state)

  record Sets (h : Hand doubles) (r : Hand doubles × ErrorCode) : Type 0 where
    code : is_ok r.1 ≡ takes_commands h
    staged : r.0.core.staging_command ≡ (
        if takes_commands h && is_command_valid doubles command
        then clamp_command doubles clamp h.workspace_clamp command
        else h.core.staging_command)
    counted : r.0.count_nan_command ≡ (
        if takes_commands h && not (is_command_valid doubles command)
        then (h.count_nan_command + 1) % 2 ^ 64
        else h.count_nan_command)
    requested : r.0.core.requested_lifecycle ≡ h.core.requested_lifecycle
    observed : r.0.core.lifecycle ≡ h.core.lifecycle

module _ {doubles : Doubles} where
  -- A start_homing() that is let through on a dead link, by a hand that is not running, answers
  -- CommunicationLost and starts nothing, but leaves the homing state at InProgress.
  pub start_homing-dead_link :
      (h : Hand doubles)
      → is_ok (check_allowed home true h) ≡ true
      → (is_running h.core.requested_lifecycle && is_running h.core.lifecycle) ≡ false
      → h.core.check_communication ≡ false
      → let r = start_homing h in
        (r.1 ≡ communication_lost)
        × (r.0.core.homing_state ≡ in_progress)
        × (is_homing r.0 ≡ is_homing h)
        × (r.0.core.requested_lifecycle ≡ h.core.requested_lifecycle)
  unfolding start_homing is_homing request_control reset_command_to_idle stage
  start_homing-dead_link h allowed apart dead = ground (arith)
