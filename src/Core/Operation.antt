-- ===== src/Core/Operation.antt =====
-- `request_control`, `enable_control`, `run`, `stop`, `start_homing` and `home`
-- (cpp/src/hand_core/hand_core.cpp).
use aidin_hand2_sdk.Base.{true, false, not, ◌&&◌, if◌then◌else◌, Option, none, some}
use aidin_hand2_sdk.Types.Error.{
  ErrorCode, ok, wrong_call_order, communication_lost, hardware_fault, is_ok,
}
use aidin_hand2_sdk.Types.Lifecycle.{
  in_progress, running, stopped, is_running, is_stopped, is_faulted,
}
use aidin_hand2_sdk.Lifecycle.Action.{run, stop, home}
use aidin_hand2_sdk.Control.Command.{Doubles}
use aidin_hand2_sdk.Core.State.{
  Hand, World, is_homed, store_requested, store_lifecycle, reset_command_to_idle, check_allowed,
}
use aidin_hand2_sdk.Core.Waits.{wait_observed, wait_homing}

module _ {doubles : Doubles} where
  -- The request of a hold, on the way out of Stopped.
  unfoldable pub request_hold_pose : Hand doubles → Hand doubles
  request_hold_pose h =
      let fresh = reset_command_to_idle h in
      record fresh { core = record fresh.core { request_hold = true } }

  -- Which of the three texts a dead link gets depends on the interface, the code does not.
  unfoldable pub request_control : Hand doubles → Hand doubles × ErrorCode
  request_control h =
      let requested = h.core.requested_lifecycle in
      if is_running requested && is_running h.core.lifecycle
      then (h, ok)
      else if not h.core.check_communication
      then (h, communication_lost)
      else (store_requested running (if is_stopped requested then request_hold_pose h else h), ok)

  -- The code for a wait that was not answered.
  unfoldable pub unconfirmed : Hand doubles → ErrorCode
  unconfirmed h = if h.core.check_communication then hardware_fault else communication_lost

  unfoldable pub enable_control : World doubles → Hand doubles → Hand doubles × ErrorCode
  enable_control world h =
      let (asked, code) = request_control h in
      let (seen, reached) = wait_observed running world.enable_rounds asked in
      if not (is_ok code)
      then (asked, code)
      else if reached
      then (store_lifecycle running seen, ok)
      else (reset_command_to_idle (store_requested stopped seen), unconfirmed seen)

  unfoldable pub start_homing : Hand doubles → Hand doubles × ErrorCode
  start_homing h =
      let checked = check_allowed home true h in
      let begun =
        reset_command_to_idle (record h { core = record h.core { homing_state = in_progress } }) in
      let (asked, code) = request_control begun in
      if not (is_ok checked) then (h, checked) else if not (is_ok code) then (asked, code) else (
        record asked { core = record asked.core { result_homing = false; request_homing = true } },
        ok,
      )

  -- What `home` answers when its loop has ended.
  unfoldable pub homing_answer : Hand doubles → ErrorCode
  homing_answer h =
      let checked = check_allowed home true h in
      if not (is_running h.core.requested_lifecycle && not (is_faulted h.core.lifecycle))
      then if is_ok checked then wrong_call_order else checked
      else if h.core.result_homing
      then ok
      else hardware_fault

  unfoldable pub home_hand : World doubles → Hand doubles → Option (Hand doubles × ErrorCode)
  home_hand world h =
      let (started, code) = start_homing h in
      if not (is_ok code)
      then some (started, code)
      else elim (wait_homing world.homing_rounds started) [
        | none ↦ none
        | some ended ↦ some (ended, homing_answer ended)
      ]

  unfoldable pub run_hand : World doubles → Hand doubles → Option (Hand doubles × ErrorCode)
  run_hand world h =
      let checked = check_allowed run true h in
      if not (is_ok checked)
      then some (h, checked)
      else if h.auto_home && not (is_homed h.core.homing_state)
      then home_hand world h
      else if is_running h.core.requested_lifecycle && is_running h.core.lifecycle
      then some (h, ok)
      else some (enable_control world h)

  unfoldable pub stop_hand : World doubles → Hand doubles → Hand doubles × ErrorCode
  stop_hand world h =
      let checked = check_allowed stop true h in
      let asked = reset_command_to_idle (store_requested stopped h) in
      let (seen, reached) = wait_observed stopped world.stop_rounds asked in
      let fault = check_allowed stop true seen in
      if not (is_ok checked)
      then (h, checked)
      else if is_stopped h.core.requested_lifecycle && is_stopped h.core.lifecycle
      then (h, ok)
      else if reached
      then (seen, ok)
      else if is_faulted seen.core.lifecycle && not (is_ok fault)
      then (seen, fault)
      else (seen, unconfirmed seen)
