-- ===== src/Core/Connection.antt =====
-- The constructor, `connect`, `disconnect`, `reconnect` and `close`
-- (cpp/src/hand_core/hand_core.cpp).
use aidin_hand2_sdk.Base.{Bool, true, false, not, ◌&&◌, ◌||◌, if◌then◌else◌}
use aidin_hand2_sdk.Comms.Session
use aidin_hand2_sdk.Types.Error.{ErrorCode, ok, communication_lost, control_loop_fault, is_ok}
use aidin_hand2_sdk.Types.Lifecycle.{
  disconnected, connected, stopped, faulted, not_run, is_disconnected, is_running, is_stopped,
  is_faulted,
}
use aidin_hand2_sdk.Lifecycle.Action.{connect, disconnect, reconnect}
use aidin_hand2_sdk.Control.Command.{Doubles}
use aidin_hand2_sdk.Control.Reconnect.{reset_fault_state}
use aidin_hand2_sdk.Core.State.{
  Hand, World, is_connected, store_requested, store_lifecycle, store_comms, reset_command_to_idle,
  republish_staged, check_allowed,
}
use aidin_hand2_sdk.Core.Waits.{wait_observed, wait_first_frame, stop_control_loop}
use aidin_hand2_sdk.Core.Operation.{unconfirmed}

module _ {doubles : Doubles} where
  unfoldable pub close_comms : Hand doubles → Hand doubles
  close_comms h = store_comms (Session.disconnect h.core.comms) h

  -- (void)comms_.stop(); comms_.disconnect().
  unfoldable pub end_session : Hand doubles → Hand doubles
  end_session h = close_comms (store_comms (Session.stop h.core.comms).0 h)

  -- The stores before the threads start.
  unfoldable pub prepare_session : Hand doubles → Hand doubles
  prepare_session h = store_requested connected (
      republish_staged (record h {
        core = record h.core {
          check_first_frame = false;
          check_communication = false;
          homing_state = not_run;
        };
      }))

  -- What a failure to start a thread undoes.
  unfoldable pub undo_session : Hand doubles → Hand doubles
  undo_session h =
      close_comms (record (store_lifecycle disconnected (store_requested disconnected h)) {
        event_logging_thread = false;
      })

  unfoldable pub start_threads : Hand doubles → Hand doubles
  start_threads h = record h { event_logging_thread = true; rt_thread = true }

  -- From the stores before the threads on.
  unfoldable pub start_session : World doubles → Hand doubles → Hand doubles × ErrorCode
  start_session world h =
      let prepared = prepare_session h in
      let (seen, observed) = wait_first_frame world.frame_rounds (start_threads prepared) in
      if not world.threads_start
      then (undo_session prepared, control_loop_fault)
      else if observed
      then (store_lifecycle connected seen, ok)
      else (close_comms (stop_control_loop world seen), communication_lost)

  unfoldable pub connect_hand : World doubles → Hand doubles → Hand doubles × ErrorCode
  connect_hand world h =
      let checked = check_allowed connect true h in
      let (opened, code) = Session.connect world.abi world.bus world.candidates h.core.comms in
      let (active, session) = Session.run opened in
      if not (is_ok checked)
      then (h, checked)
      else if is_connected h.core.requested_lifecycle && is_connected h.core.lifecycle
      then (h, ok)
      else if not (is_ok code)
      then (store_comms opened h, code)
      else if not (is_ok session)
      then (close_comms (store_comms active h), session)
      else start_session world (store_comms active h)

  unfoldable pub is_control_requested : Hand doubles → Bool
  is_control_requested h =
      is_running h.core.requested_lifecycle || is_stopped h.core.requested_lifecycle

  -- The end of a disconnect whose stop was confirmed, or needed none.
  unfoldable pub finish_disconnect : World doubles → Hand doubles → Hand doubles
  finish_disconnect world h =
      let ended = end_session (stop_control_loop world h) in
      store_lifecycle disconnected (record ended {
        core = record ended.core { check_first_frame = false; check_communication = false };
      })

  unfoldable pub disconnect_hand : World doubles → Hand doubles → Hand doubles × ErrorCode
  disconnect_hand world h =
      let checked = check_allowed disconnect true h in
      let idle = reset_command_to_idle h in
      let (seen, reached) =
        wait_observed stopped world.stop_rounds (store_requested stopped idle) in
      let fault = check_allowed disconnect true seen in
      if not (is_ok checked)
      then (h, checked)
      else if is_disconnected h.core.lifecycle
      then (h, ok)
      else if not (is_control_requested idle && not (is_stopped idle.core.lifecycle))
      then (finish_disconnect world idle, ok)
      else if reached
      then (finish_disconnect world seen, ok)
      else if is_faulted seen.core.lifecycle && not (is_ok fault)
      then (seen, fault)
      else (seen, unconfirmed seen)

  unfoldable pub reconnect_hand : World doubles → Hand doubles → Hand doubles × ErrorCode
  reconnect_hand world h =
      let checked = check_allowed reconnect true h in
      let ended = end_session (stop_control_loop world h) in
      let cause = ended.core.last_stop_cause in
      let fresh = reset_command_to_idle (record ended { core = reset_fault_state ended.core }) in
      let (after, code) = connect_hand world fresh in
      if not (is_ok checked) then (h, checked) else if is_ok code then (after, code) else (
        store_lifecycle faulted
            (record after { core = record after.core { last_stop_cause = cause } }),
        code,
      )

  -- The destructor calls it too; its answer is the hand alone.
  unfoldable pub close_hand : World doubles → Hand doubles → Hand doubles
  close_hand world h =
      let refused = record h { request_destroy = true } in
      let (seen, reached) =
        wait_observed stopped world.stop_rounds (store_requested stopped refused) in
      let ended = stop_control_loop world (
        if is_control_requested refused && not (is_stopped refused.core.lifecycle)
        then seen
        else refused) in
      if h.request_destroy
      then refused
      else end_session (record ended { event_logging_thread = false })
