-- ===== src/Control/Output.antt =====
-- The output of a control cycle, steps 1 and 4 of the loop in `run_control_loop`: which command goes in,
-- whether the cycle sends, whether it asks for a quick stop, and what a failed send means. The
-- request is loaded twice, since another thread may change it in between.
use aidin_hand2_sdk.Base.{ℕ, Bool, true, not, ◌&&◌, ◌||◌, ◌==◌, if◌then◌else◌, List, []}
use aidin_hand2_sdk.Protocol.Frames.{CommandFrames, no_command_frames}
use aidin_hand2_sdk.Protocol.Ids.{CanFrame}
use aidin_hand2_sdk.Protocol.Observation.{ActuatorState, ActuatorHealth}
use aidin_hand2_sdk.Comms.Cycle.{Sends, write}
use aidin_hand2_sdk.Types.Error.{is_ok}
use aidin_hand2_sdk.Types.Lifecycle.{
  HandLifecycle, running, faulted, is_running, is_stopped, is_faulted,
}
use aidin_hand2_sdk.Types.Events.{transmit_failure}
use aidin_hand2_sdk.Control.State.{HandCore, push_event, hand_event}
use aidin_hand2_sdk.Control.Command.{
  Doubles, HandCommand, Controllers, command_to_frames, no_command,
}

-- The numbers of <cerrno> that mean a full queue.
pub record ErrnoAbi : Type 0 where
  pub eagain : ℕ
  pub ewouldblock : ℕ
  pub enobufs : ℕ

unfoldable pub is_transient : ErrnoAbi → ℕ → Bool
is_transient abi errno = errno == abi.eagain || errno == abi.ewouldblock || errno == abi.enobufs

-- Only Running sends what the user staged.
unfoldable pub input_command :
    (doubles : Doubles) → HandLifecycle → HandCommand doubles → HandCommand doubles
input_command doubles requested active = if is_running requested then active else no_command doubles

unfoldable pub is_control_session : HandLifecycle → HandLifecycle → Bool
is_control_session requested observed =
    is_running requested || is_stopped requested || is_faulted observed

unfoldable pub asks_quick_stop : HandLifecycle → HandLifecycle → Bool
asks_quick_stop latest observed = not (is_running latest) || is_faulted observed

module _ {Command : Type 0} where
  -- A write that failed for good faults the hand, unless it is stopping anyway.
  unfoldable pub judge_write :
      ErrnoAbi
      → HandLifecycle
      → ℕ
      → Bool
      → HandCore Command
      → HandLifecycle
      → HandCore Command × HandLifecycle
  judge_write abi latest cycle write_ok core observed =
      let errno = core.comms.last_transmit_errno in
      if not write_ok
        && not (is_transient abi errno)
        && is_running latest
        && not (is_faulted observed)
      then (
        push_event (hand_event transmit_failure cycle errno 0 running true) (record core {
          last_stop_cause = record {
            reason = transmit_failure;
            cycle = cycle;
            detail = errno;
            can_error_class = 0;
          };
          lifecycle = faulted;
        }),
        faulted,
      )
      else (core, observed)

pub record OutputResult (Command State : Type 0) : Type 0 where
  pub core : HandCore Command
  pub observed : HandLifecycle
  pub frames : CommandFrames
  pub controllers : State
  pub sent : List CanFrame
  pub write_ok : Bool

module _ {Command : Type 0} (doubles : Doubles) (controllers : Controllers doubles) where
  unfoldable pub write_cycle :
      ErrnoAbi
      → HandLifecycle
      → HandLifecycle
      → HandCommand doubles
      → ActuatorState
      → ActuatorHealth
      → Sends
      → ℕ
      → HandCore Command
      → HandLifecycle
      → controllers.State
      → OutputResult Command controllers.State
  write_cycle abi requested latest active actuators health sends cycle core observed s =
      let (frames, s') =
        command_to_frames doubles controllers (input_command doubles requested active) actuators
          health s in
      let written = write frames (asks_quick_stop latest observed) sends core.comms in
      let ok = is_ok written.code in
      let judged =
        judge_write abi latest cycle ok (record core { comms = written.comms }) observed in
      if is_control_session requested observed
      then record {
        core = judged.0;
        observed = judged.1;
        frames = frames;
        controllers = s';
        sent = written.sent;
        write_ok = ok || is_transient abi written.comms.last_transmit_errno;
      }
      else record {
        core = core;
        observed = observed;
        frames = no_command_frames;
        controllers = s;
        sent = [];
        write_ok = true;
      }
