-- ===== src/Protocol/Frames.antt =====
-- The signals of cpp/src/hand_core/comms/canfd/protocol.hpp and the constants of
-- cpp/include/aidin_hand2/types/description.hpp. An intN_t or uintN_t is its bit pattern, a number
-- below 2 ^ N; the actuator arrays are indexed by the SDK's actuator number.
use aidin_hand2_sdk.Base.{ℕ}
use aidin_hand2_sdk.Base.Arrays.{Array, fill}

abbrev pub actuator_count : ℕ
actuator_count = 16

abbrev pub finger_count : ℕ
finger_count = 5

abbrev pub tactile_taxels_per_finger : ℕ
tactile_taxels_per_finger = 17

abbrev pub palm1_upper_count : ℕ
palm1_upper_count = 20

abbrev pub palm1_lower_count : ℕ
palm1_lower_count = 20

abbrev pub palm2_count : ℕ
palm2_count = 18

-- Drive count 0 is the hard stop; the SDK's 0 lies this far off it.
abbrev pub home_offset_count : ℕ
home_offset_count = 1000

-- namespace mode_of_operation
abbrev pub homing_mode : ℕ
homing_mode = 6

abbrev pub csp_mode : ℕ
csp_mode = 8

abbrev pub cst_mode : ℕ
cst_mode = 10

pub record StateFrames : Type 0 where
  pub actual_position : Array ℕ  -- int32_t
  pub actual_velocity : Array ℕ  -- int32_t
  pub actual_current : Array ℕ  -- int16_t
  pub status_word : Array ℕ  -- uint16_t
  pub error_code : Array ℕ  -- uint16_t
  pub tactile_thumb : Array ℕ  -- uint16_t, like all that follow
  pub tactile_index : Array ℕ
  pub tactile_middle : Array ℕ
  pub tactile_ring : Array ℕ
  pub tactile_baby : Array ℕ
  pub palm1_upper : Array ℕ
  pub palm1_lower : Array ℕ
  pub palm2 : Array ℕ

-- `StateFrames{}`.
abbrev pub no_state_frames : StateFrames
no_state_frames = record {
  actual_position = fill 0;
  actual_velocity = fill 0;
  actual_current = fill 0;
  status_word = fill 0;
  error_code = fill 0;
  tactile_thumb = fill 0;
  tactile_index = fill 0;
  tactile_middle = fill 0;
  tactile_ring = fill 0;
  tactile_baby = fill 0;
  palm1_upper = fill 0;
  palm1_lower = fill 0;
  palm2 = fill 0;
}

pub record CommandFrames : Type 0 where
  pub target_position : Array ℕ  -- int32_t
  pub target_effort : Array ℕ  -- int16_t
  pub max_effort : Array ℕ  -- int16_t
  pub control_word : Array ℕ  -- uint16_t
  pub mode_of_operation : Array ℕ  -- int8_t
  pub homing_method : Array ℕ  -- int8_t

-- `CommandFrames{}`.
abbrev pub no_command_frames : CommandFrames
no_command_frames = record {
  target_position = fill 0;
  target_effort = fill 0;
  max_effort = fill 0;
  control_word = fill 0;
  mode_of_operation = fill 0;
  homing_method = fill 0;
}
