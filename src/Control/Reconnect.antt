-- ===== src/Control/Reconnect.antt =====
-- `try_reconnect_once` (cpp/src/hand_core/threads/hand_core_control_thread.cpp) and
-- `reset_fault_state` (cpp/src/hand_core/hand_core.cpp): one retry of the link while the hand is
-- Faulted. The bus and the frames that arrive before each read are arguments. The log line and
-- `interface_name_`, a copy of the session's channel name for the user's calls, are left out.
use Prim.Native.String.{String}
use aidin_hand2_sdk.Base.{
  ℕ, zero, suc, ◌+◌, Bool, true, false, not, if◌then◌else◌, List, Option, some,
}
use aidin_hand2_sdk.Protocol.Ids.{CanAbi, CanFrame}
use aidin_hand2_sdk.Protocol.Observation.{no_observation, no_actuator_health}
use aidin_hand2_sdk.StopConfirmation.{waiting}
use aidin_hand2_sdk.Comms.Session.{HandComms, Bus, connect, disconnect, run}
use aidin_hand2_sdk.Comms.Cycle.{read}
use aidin_hand2_sdk.Types.Error.{is_ok}
use aidin_hand2_sdk.Types.Lifecycle.{connected, running, not_run}
use aidin_hand2_sdk.Types.Events.{StopCause, receive_silence}
use aidin_hand2_sdk.Control.State.{HandCore}

-- `StopCause{}`.
abbrev pub no_cause : StopCause
no_cause = record { reason = receive_silence; cycle = 0; detail = 0; can_error_class = 0 }

-- kFirstFrameCycles.
abbrev pub first_frame_cycles : ℕ
first_frame_cycles = 150

-- The wait for a decoded frame, its reads counted from `index` on.
unfoldable pub await_frame : CanAbi → (ℕ → List CanFrame) → ℕ → ℕ → HandComms → HandComms
await_frame abi arrives zero index h = h
await_frame abi arrives (suc n) index h =
    let seen = (read abi (arrives index) h no_observation no_actuator_health).comms in
    let rest = await_frame abi arrives n (index + 1) seen in
    if seen.any_frame_received then seen else rest

module _ {Command : Type 0} where
  unfoldable pub reset_fault_state : HandCore Command → HandCore Command
  reset_fault_state core = record core {
    stop_confirmation = waiting;
    last_stop_cause = no_cause;
    request_homing = false;
    active_homing = false;
    request_hold = false;
  }

  module _ {Published : Type 0} where
    -- What follows the first frame. `idle` is the controller Idle{}, which reset_command_to_idle stages,
    -- and `published` the staged command with it, whose caps it keeps, which it writes into the buffer
    -- for the loop; none stands for a buffer that has been read.
    unfoldable pub resume_control :
        Command
        → Published
        → Bool
        → HandComms
        → HandCore Command
        → HandCore Command × Option Published
    resume_control idle published auto_reconnect_home comms core =
        let fresh = reset_fault_state core in
        (
          record fresh {
            comms = (run comms).0;
            check_communication = false;
            homing_state = not_run;
            staging_command = idle;
            request_homing = auto_reconnect_home;
            requested_lifecycle = running;
            lifecycle = connected;
          },
          some published,
        )

    -- The core and the buffer afterwards, and whether the link is back.
    unfoldable pub try_reconnect_once :
        CanAbi
        → Bus
        → List String
        → (ℕ → List CanFrame)
        → Command
        → Published
        → Bool
        → HandCore Command
        → Option Published
        → HandCore Command × Option Published × Bool
    try_reconnect_once abi bus candidates arrives idle published auto_reconnect_home core buffer =
        let (opened, code) = connect abi bus candidates (disconnect core.comms) in
        let heard = await_frame abi arrives first_frame_cycles 0 opened in
        let (resumed, written) = resume_control idle published auto_reconnect_home heard core in
        if not (is_ok code)
        then (record core { comms = opened }, buffer, false)
        else if not heard.any_frame_received
        then (record core { comms = disconnect heard }, buffer, false)
        else (resumed, written, true)
