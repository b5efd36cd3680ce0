-- ===== src/Core/Calls.antt =====
-- A hand from its construction on: the public calls of `HandCore` one after the other
-- (cpp/src/hand_core/hand_core.cpp), the control loop in between and while a call waits.
use Prim.Native.String.{String}
use aidin_hand2_sdk.Base.{ℕ, ◌≡◌, Bool, true, false, List, Option, none, some}
use aidin_hand2_sdk.Base.Arrays.{fill}
use aidin_hand2_sdk.EventRing.{new_ring}
use aidin_hand2_sdk.StopConfirmation.{waiting}
use aidin_hand2_sdk.Protocol.Ids.{HandSide}
use aidin_hand2_sdk.Comms.Session.{new_comms}
use aidin_hand2_sdk.Types.Error.{ErrorCode}
use aidin_hand2_sdk.Types.Lifecycle.{disconnected, not_run}
use aidin_hand2_sdk.Types.Events.{RealtimeEvent, receive_silence}
use aidin_hand2_sdk.Control.State.{HandCore, hand_event}
use aidin_hand2_sdk.Control.Reconnect.{no_cause}
use aidin_hand2_sdk.Control.Command.{Doubles, Targets, ControllerCommand, idle}
use aidin_hand2_sdk.Control.Tactile
use aidin_hand2_sdk.Core.State.{Hand, ControllerConfig, World}
use aidin_hand2_sdk.Core.Operation.{run_hand, stop_hand, home_hand, start_homing}
use aidin_hand2_sdk.Core.Connection.{connect_hand, disconnect_hand, reconnect_hand, close_hand}
use aidin_hand2_sdk.Core.Command.{
  set_hand_command, set_max_effort, set_controller_config, set_bias, reset_bias,
}
use aidin_hand2_sdk.Core.Loop.{ByLoop, IsFair}

-- `RealtimeEvent{}`, in every slot of the ring.
abbrev pub blank : RealtimeEvent
blank = record (hand_event receive_silence 0 0 0 disconnected false) { actuator_index = 0 }

-- kDefaultMaxEffort.
abbrev default_max_effort : ℕ
default_max_effort = 1000

-- HandConfig, as far as the calls read it.
pub record HandConfig : Type 0 where
  pub interface_name : Option String
  pub hand_side : HandSide
  pub disabled_actuators : List ℕ
  pub auto_home : Bool

module _ (doubles : Doubles) where
  unfoldable pub new_core : HandConfig → HandCore (ControllerCommand doubles)
  new_core config = record {
    comms = new_comms config.interface_name config.hand_side config.disabled_actuators;
    requested_lifecycle = disconnected;
    lifecycle = disconnected;
    event_ring = new_ring blank;
    last_stop_cause = no_cause;
    stop_confirmation = waiting;
    homing_state = not_run;
    active_homing = false;
    result_homing = false;
    check_first_frame = false;
    request_homing = false;
    request_hold = false;
    check_communication = false;
    staging_command = idle;
  }

  -- The constructor; `workspace_clamp` is what the environment variable says, and `controller_config`
  -- the value of `ControllerConfig{}`.
  unfoldable pub new_hand : HandConfig → Bool → ControllerConfig doubles → Hand doubles
  unfolding new_core
  new_hand config workspace_clamp controller_config = record {
    core = new_core config;
    auto_home = config.auto_home;
    workspace_clamp = workspace_clamp;
    max_effort_pct = fill (doubles.of_int32 default_max_effort);
    controller_config = controller_config;
    command_buffer =
        some (record {
          controller = idle;
          max_effort_pct = fill (doubles.of_int32 default_max_effort);
        });
    controller_config_buffer = none;
    rt_thread = false;
    event_logging_thread = false;
    request_tactile_bias = Tactile.none;
    count_nan_command = 0;
    last_command_was_nan = false;
    request_destroy = false;
  }

  pub data Call : Type 0 where
    connect disconnect reconnect close run stop home home_async set_bias_call reset_bias_call : Call
    set_command : ControllerCommand doubles → Call
    set_effort : Targets doubles → Call
    set_config : ControllerConfig doubles → Call

  abbrev pub hand_of : Option (Hand doubles × ErrorCode) → Option (Hand doubles)
  hand_of none = none
  hand_of (some r) = some r.0

  module _ (clamp : Targets doubles → Targets doubles) where
    -- none for a `home` that has not returned.
    unfoldable pub perform : Call → World doubles → Hand doubles → Option (Hand doubles)
    perform connect world h = some (connect_hand world h).0
    perform disconnect world h = some (disconnect_hand world h).0
    perform reconnect world h = some (reconnect_hand world h).0
    perform close world h = some (close_hand world h)
    perform run world h = hand_of (run_hand world h)
    perform stop world h = some (stop_hand world h).0
    perform home world h = hand_of (home_hand world h)
    perform home_async world h = some (start_homing h).0
    perform set_bias_call world h = some (set_bias doubles h).0
    perform reset_bias_call world h = some (reset_bias doubles h).0
    perform (set_command command) world h = some (set_hand_command doubles clamp command h).0
    perform (set_effort limit) world h = some (set_max_effort doubles limit h).0
    perform (set_config config) world h = some (set_controller_config doubles config h).0

    pub data Reach : Hand doubles → Type 0 where
      created :
          (config : HandConfig) (workspace_clamp : Bool)
          (controller_config : ControllerConfig doubles)
          → Reach (new_hand config workspace_clamp controller_config)
      by_loop : {h h' : Hand doubles} → Reach h → h.rt_thread ≡ true → ByLoop h h' → Reach h'
      called :
          {h h' : Hand doubles} (call : Call) (world : World doubles)
          → Reach h
          → IsFair world
          → perform call world h ≡ some h'
          → Reach h'
