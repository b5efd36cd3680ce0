-- ===== src/Protocol/Observation.antt =====
-- `Protocol::frames_to_hand_state` and `frames_to_actuator_health` of protocol.cpp: the sensor part
-- of `HandState`, and `ActuatorHealth` (cpp/include/aidin_hand2/types/state.hpp). A fault is the
-- drive's error code, 0 for none.
use aidin_hand2_sdk.Base.{ℕ, zero, suc, ◌+◌, ◌-◌, Bool, false, ltb, if◌then◌else◌}
use aidin_hand2_sdk.Base.Arrays.{Array, fill}
use aidin_hand2_sdk.Cia402.{is_operation_enabled}
use aidin_hand2_sdk.Protocol.Frames.{StateFrames, palm1_upper_count, palm1_lower_count}

pub record ActuatorState : Type 0 where
  pub position_count : Array ℕ
  pub velocity_rpm : Array ℕ
  pub current_ma : Array ℕ

pub record TactileState : Type 0 where
  pub fingers : Array (Array ℕ)
  pub palm : Array ℕ

pub record Observation : Type 0 where
  pub actuators : ActuatorState
  pub tactile : TactileState

pub record ActuatorHealth : Type 0 where
  pub enabled : Array Bool
  pub fault : Array ℕ

-- The initial members of `HandState{}` and `ActuatorHealth{}`.
abbrev pub no_observation : Observation
no_observation = record {
  actuators = record { position_count = fill 0; velocity_rpm = fill 0; current_ma = fill 0 };
  tactile = record { fingers = fill (fill 0); palm = fill 0 };
}

abbrev pub no_actuator_health : ActuatorHealth
no_actuator_health = record { enabled = fill false; fault = fill 0 }

-- The five finger arrays in order, and the three palm pads one behind the other.
abbrev finger_taxels : StateFrames → Array (Array ℕ)
finger_taxels frames zero = frames.tactile_thumb
finger_taxels frames (suc zero) = frames.tactile_index
finger_taxels frames (suc (suc zero)) = frames.tactile_middle
finger_taxels frames (suc (suc (suc zero))) = frames.tactile_ring
finger_taxels frames (suc (suc (suc (suc i)))) = frames.tactile_baby

abbrev palm_taxels : StateFrames → Array ℕ
palm_taxels frames i =
    if ltb i palm1_upper_count
    then frames.palm1_upper i
    else if ltb i (palm1_upper_count + palm1_lower_count)
    then frames.palm1_lower (i - palm1_upper_count)
    else frames.palm2 (i - (palm1_upper_count + palm1_lower_count))

unfoldable pub frames_to_hand_state : StateFrames → Observation
frames_to_hand_state frames = record {
  actuators = record {
    position_count = frames.actual_position;
    velocity_rpm = frames.actual_velocity;
    current_ma = frames.actual_current;
  };
  tactile = record { fingers = finger_taxels frames; palm = palm_taxels frames };
}

unfoldable pub frames_to_actuator_health : StateFrames → ActuatorHealth
frames_to_actuator_health frames = record {
  enabled = λ i. is_operation_enabled (frames.status_word i);
  fault = frames.error_code;
}
