-- ===== src/Control/State.antt =====
-- The state of `HandCore` that the control loop's judgements read and write, and its `LoopState`
-- (cpp/src/hand_core/hand_core.hpp). An atomic is loaded once in a judgement, so each judgement is a
-- function of the values loaded. `Command` is the type of a staged
-- controller command.
use aidin_hand2_sdk.Base.{ℕ, ◌-◌, ◌^◌, Bool, true, false}
use aidin_hand2_sdk.Base.Arrays.{Array, fill}
use aidin_hand2_sdk.EventRing.{Ring, push}
use aidin_hand2_sdk.StopConfirmation.{StopConfirmation}
use aidin_hand2_sdk.Homing.Sequence.{
  HomingPhase, HomingOutcome, preparing, preloading_to_hard_stop, setting_origin, in_progress,
  succeeded, enable_timeout, clear_timeout, homing_failed, trigger_timeout,
}
use aidin_hand2_sdk.Protocol.Codec.{
  DecodeResult, unknown, decoded, conflicting_command, error, length_error,
}
use aidin_hand2_sdk.Comms.Session.{HandComms}
use aidin_hand2_sdk.Types.Lifecycle.{HandLifecycle, HomingState}
use aidin_hand2_sdk.Types.Events.{RealtimeEvent, RealtimeEventKind, StopCause, whole_hand}

pub record HandCore (Command : Type 0) : Type 0 where
  pub comms : HandComms
  pub requested_lifecycle : HandLifecycle
  pub lifecycle : HandLifecycle
  pub event_ring : Ring RealtimeEvent
  pub last_stop_cause : StopCause
  pub stop_confirmation : StopConfirmation
  pub homing_state : HomingState
  pub active_homing : Bool
  pub result_homing : Bool
  pub check_first_frame : Bool
  pub request_homing : Bool
  pub request_hold : Bool
  pub check_communication : Bool
  -- staging_command_.controller.
  pub staging_command : Command

pub record LoopState : Type 0 where
  pub previous_fault : Array ℕ
  pub previous_receiving : Bool
  pub first_frame_reported : Bool
  pub previous_latched : Bool
  pub homing_was_active : Bool
  pub previous_homing_phase : HomingPhase
  pub confirmation_cycles : ℕ
  pub confirmation_by_fault : Bool
  pub confirmation_confirmed_reported : Bool
  pub confirmation_not_confirmed_reported : Bool

-- `LoopState loop{}`.
abbrev pub new_loop : LoopState
new_loop = record {
  previous_fault = fill 0;
  previous_receiving = true;
  first_frame_reported = false;
  previous_latched = false;
  homing_was_active = false;
  previous_homing_phase = preparing;
  confirmation_cycles = 0;
  confirmation_by_fault = false;
  confirmation_confirmed_reported = false;
  confirmation_not_confirmed_reported = false;
}

-- static_cast<std::int32_t> of the enumerations that an event carries.
abbrev pub decode_result_number : DecodeResult → ℕ
decode_result_number unknown = 0
decode_result_number decoded = 1
decode_result_number conflicting_command = 2
decode_result_number error = 2 ^ 32 - 1
decode_result_number length_error = 2 ^ 32 - 2

abbrev pub phase_number : HomingPhase → ℕ
phase_number preparing = 0
phase_number preloading_to_hard_stop = 1
phase_number setting_origin = 2

abbrev pub outcome_number : HomingOutcome → ℕ
outcome_number in_progress = 0
outcome_number succeeded = 1
outcome_number enable_timeout = 2
outcome_number clear_timeout = 3
outcome_number homing_failed = 4
outcome_number trigger_timeout = 5

-- An event of the whole hand, as the braces after event_ring_.push leave it.
abbrev pub hand_event : RealtimeEventKind → ℕ → ℕ → ℕ → HandLifecycle → Bool → RealtimeEvent
hand_event kind cycle detail can_error_class lifecycle stop_latched = record {
  kind = kind;
  cycle = cycle;
  actuator_index = whole_hand;
  detail = detail;
  can_error_class = can_error_class;
  lifecycle = lifecycle;
  stop_latched = stop_latched;
  actuator_mask = 0;
}

module _ {Command : Type 0} where
  -- event_ring_.push, its answer ignored.
  unfoldable pub push_event : RealtimeEvent → HandCore Command → HandCore Command
  push_event event core = record core { event_ring = (push event core.event_ring).0 }
