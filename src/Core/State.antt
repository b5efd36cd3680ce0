-- ===== src/Core/State.antt =====
-- `HandCore` as its public calls see it (cpp/src/hand_core/hand_core.{hpp,cpp}): the shared state of
-- Control.State with the members of the user's thread, the stores that the calls make, and what the
-- other threads and the system do while a call waits. A text is no part of a call's result here.
use Prim.Native.String.{String}
use aidin_hand2_sdk.Base.{ℕ, Bool, true, false, ◌==◌, List, Option, none, some, if◌then◌else◌}
use aidin_hand2_sdk.Protocol.Ids.{CanAbi}
use aidin_hand2_sdk.Comms.Session.{HandComms, Bus}
use aidin_hand2_sdk.Types.Error.{ErrorCode, Status, unexpected_error}
use aidin_hand2_sdk.Types.Lifecycle.{
  HandLifecycle, HomingState, disconnected, connected, running, stopped, faulted, succeeded,
}
use aidin_hand2_sdk.Lifecycle.Action.{HandAction, check_action_allowed}
use aidin_hand2_sdk.Control.State.{HandCore}
use aidin_hand2_sdk.Control.Command.{Doubles, Targets, ControllerCommand, HandCommand, idle}
use aidin_hand2_sdk.Control.Tactile.{TactileBiasRequest}

abbrev pub lifecycle_number : HandLifecycle → ℕ
lifecycle_number disconnected = 0
lifecycle_number connected = 1
lifecycle_number running = 2
lifecycle_number stopped = 3
lifecycle_number faulted = 4

abbrev pub same : HandLifecycle → HandLifecycle → Bool
same a b = lifecycle_number a == lifecycle_number b

abbrev pub is_connected : HandLifecycle → Bool
is_connected connected = true
is_connected _ = false

abbrev pub is_homed : HomingState → Bool
is_homed succeeded = true
is_homed _ = false

-- The code of a check; a null reason would be no status at all.
abbrev pub checked_code : Option Status → ErrorCode
checked_code none = unexpected_error
checked_code (some status) = status.code

module _ (doubles : Doubles) where
  -- ControllerConfig of cpp/include/aidin_hand2/types/config.hpp.
  pub record ControllerConfig : Type 0 where
    pub filter_enabled : Bool
    pub cutoff_freq : doubles.Double
    pub deadband : doubles.Double
    pub stiffness : Targets doubles
    pub damping : Targets doubles

  pub record Hand : Type 0 where
    pub core : HandCore (ControllerCommand doubles)
    -- auto_home_ and workspace_clamp_.
    pub auto_home : Bool
    pub workspace_clamp : Bool
    -- staging_command_.max_effort_pct and staging_controller_config_.
    pub max_effort_pct : Targets doubles
    pub controller_config : ControllerConfig
    -- What the two buffers hold for the loop, none once it has been read.
    pub command_buffer : Option (HandCommand doubles)
    pub controller_config_buffer : Option ControllerConfig
    -- joinable() of the two threads.
    pub rt_thread : Bool
    pub event_logging_thread : Bool
    pub request_tactile_bias : TactileBiasRequest
    pub count_nan_command : ℕ
    pub last_command_was_nan : Bool
    pub request_destroy : Bool

  -- One iteration of a polling loop: what the other threads do between its two loads of the
  -- lifecycle, and while it sleeps.
  pub record Round : Type 0 where
    pub between : Hand → Hand
    pub pause : Hand → Hand

  -- What a call meets: the CAN interfaces, whether the threads start, what the control loop still
  -- does until it ends, and for each waiting loop its iterations before the deadline.
  pub record World : Type 0 where
    pub abi : CanAbi
    pub bus : Bus
    pub candidates : List String
    pub threads_start : Bool
    pub ending : Hand → Hand
    pub frame_rounds : List Round
    pub enable_rounds : List Round
    pub stop_rounds : List Round
    pub homing_rounds : List Round

module _ {doubles : Doubles} where
  unfoldable pub store_requested : HandLifecycle → Hand doubles → Hand doubles
  store_requested request h = record h { core = record h.core { requested_lifecycle = request } }

  unfoldable pub store_lifecycle : HandLifecycle → Hand doubles → Hand doubles
  store_lifecycle observed h = record h { core = record h.core { lifecycle = observed } }

  unfoldable pub store_comms : HandComms → Hand doubles → Hand doubles
  store_comms comms h = record h { core = record h.core { comms = comms } }

  unfoldable pub stage : ControllerCommand doubles → Hand doubles → Hand doubles
  stage controller h = record h {
    core = record h.core { staging_command = controller };
    command_buffer = some (record { controller = controller; max_effort_pct = h.max_effort_pct });
  }

  unfoldable pub reset_command_to_idle : Hand doubles → Hand doubles
  reset_command_to_idle h = stage idle h

  unfoldable pub republish_staged : Hand doubles → Hand doubles
  republish_staged h = record h {
    command_buffer =
        some (record { controller = h.core.staging_command; max_effort_pct = h.max_effort_pct });
    controller_config_buffer = some h.controller_config;
  }

  unfoldable pub check_allowed : HandAction → Bool → Hand doubles → ErrorCode
  check_allowed action require_homed h = checked_code (
      check_action_allowed action h.core.requested_lifecycle h.core.lifecycle h.request_destroy
        h.core.last_stop_cause "" (if require_homed then is_homed h.core.homing_state else true))

  unfoldable pub is_homing : Hand doubles → Bool
  is_homing h = if h.core.request_homing then true else h.core.active_homing
