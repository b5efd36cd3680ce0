-- ===== src/Core/Supervise.antt =====
-- What `run_control_loop` carries along, the head of its loop with the supervision of a faulted hand,
-- and `handle_control_loop_failure` (cpp/src/hand_core/threads/hand_core_control_thread.cpp). What
-- the clock shows is an argument; the log lines are left out.
use Prim.Native.String.{String}
use aidin_hand2_sdk.Base.{
  ℕ, zero, suc, ◌+◌, ◌*◌, Bool, true, false, not, ◌&&◌, ◌||◌, ◌==◌, ltb, if◌then◌else◌, List,
}
use aidin_hand2_sdk.Base.Arrays.{Array, fill}
use aidin_hand2_sdk.Protocol.Frames.{no_command_frames}
use aidin_hand2_sdk.Protocol.Ids.{CanAbi, CanFrame}
use aidin_hand2_sdk.Protocol.Observation.{TactileState}
use aidin_hand2_sdk.Comms.Session.{HandComms, Bus}
use aidin_hand2_sdk.Comms.Cycle.{Sends, write}
use aidin_hand2_sdk.Types.Lifecycle.{HandLifecycle, faulted, is_disconnected, is_faulted}
use aidin_hand2_sdk.Types.Events.{RealtimeEventKind, StopCause, control_loop_failure}
use aidin_hand2_sdk.Control.State.{LoopState}
use aidin_hand2_sdk.Control.Command.{Doubles, HandCommand, Controllers, idle}
use aidin_hand2_sdk.Control.Reconnect.{try_reconnect_once}
use aidin_hand2_sdk.Core.State.{Hand, ControllerConfig}

-- The configuration of the loop.
pub record LoopConfig : Type 0 where
  pub auto_reconnect : Bool
  pub auto_reconnect_timeout_ms : ℕ
  pub auto_reconnect_home : Bool
  pub communication_loss_cycles : ℕ
  pub confirmation_window_cycles : ℕ

module _ (doubles : Doubles) (controllers : Controllers doubles) where
  -- LoopState with the members of `HandCore` that only this thread touches; a deadline of 0 is none.
  pub record Rt : Type 0 where
    pub loop : LoopState
    pub active_command : HandCommand doubles
    pub active_controller_config : ControllerConfig doubles
    pub auto_reconnect_deadline : ℕ
    pub auto_reconnect_started : Bool
    pub deadline_misses : ℕ
    pub cycle_count : ℕ
    pub controllers_state : controllers.State
    pub last_valid_joint_rad : Array doubles.Double
    pub tactile_bias : TactileState

abbrev pub is_loop_failure : RealtimeEventKind → Bool
is_loop_failure control_loop_failure = true
is_loop_failure _ = false

-- What the head of an iteration decides.
pub data Turn : Type 0 where
  ends retries cycles : Turn

module _ {doubles : Doubles} {controllers : Controllers doubles} where
  -- The deadline of the retries is set as the loop enters Faulted, if there is a limit.
  unfoldable pub start_retries : LoopConfig → ℕ → Rt doubles controllers → Rt doubles controllers
  start_retries config now rt = if rt.auto_reconnect_started then rt else record rt {
    auto_reconnect_started = true;
    auto_reconnect_deadline =
        if ltb 0 config.auto_reconnect_timeout_ms
        then now + config.auto_reconnect_timeout_ms * 1000000
        else rt.auto_reconnect_deadline;
  }

  -- From the two lifecycles that the iteration loads; `started` and `checked` are what the clock
  -- shows at its two reads.
  unfoldable pub loop_head :
      LoopConfig
      → HandLifecycle
      → HandLifecycle
      → StopCause
      → ℕ
      → ℕ
      → Rt doubles controllers
      → Turn × Rt doubles controllers
  loop_head config requested observed cause started checked rt =
      let trying = start_retries config started rt in
      if is_disconnected requested
      then (ends, rt)
      else if not (is_faulted observed)
      then (cycles, record rt { auto_reconnect_deadline = 0; auto_reconnect_started = false })
      else if not config.auto_reconnect || is_loop_failure cause.reason
      then (ends, rt)
      else if not (trying.auto_reconnect_deadline == 0)
          && ltb trying.auto_reconnect_deadline checked
      then (ends, trying)
      else (retries, trying)

  -- The change detectors of a session that starts from scratch.
  unfoldable pub forget_session : Rt doubles controllers → Rt doubles controllers
  forget_session rt = record rt {
    loop = record rt.loop {
      previous_receiving = true;
      first_frame_reported = false;
      previous_latched = false;
      homing_was_active = false;
      previous_fault = fill 0;
    };
  }

  -- One retry, from `try_reconnect_once` to `continue`.
  unfoldable pub retry :
      CanAbi
      → Bus
      → List String
      → (ℕ → List CanFrame)
      → LoopConfig
      → Rt doubles controllers
      → Hand doubles
      → Rt doubles controllers × Hand doubles
  retry abi bus candidates arrives config rt h =
      let idle_command : HandCommand doubles = record {
        controller = idle;
        max_effort_pct = h.max_effort_pct;
      } in
      let (core, buffer, recovered) =
        try_reconnect_once abi bus candidates arrives idle idle_command config.auto_reconnect_home
          h.core h.command_buffer in
      (
        if recovered then forget_session rt else rt,
        record h { core = core; command_buffer = buffer },
      )

-- The quick stops of a loop that died, `n` of them from the `index`-th on.
unfoldable pub send_quick_stops : ℕ → ℕ → (ℕ → Sends) → HandComms → HandComms
send_quick_stops zero index sends comms = comms
send_quick_stops (suc n) index sends comms =
    send_quick_stops n (index + 1) sends (write no_command_frames true (sends index) comms).comms

module _ {doubles : Doubles} where
  unfoldable pub handle_control_loop_failure : ℕ → (ℕ → Sends) → Hand doubles → Hand doubles
  handle_control_loop_failure cycle sends h = record h {
    core = record h.core {
      last_stop_cause = record {
        reason = control_loop_failure;
        cycle = cycle;
        detail = 0;
        can_error_class = 0;
      };
      lifecycle = faulted;
      comms = send_quick_stops 30 0 sends h.core.comms;
    };
  }
