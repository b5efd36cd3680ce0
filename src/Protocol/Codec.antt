-- ===== src/Protocol/Codec.antt =====
-- `Protocol::decode`, `init_tx` and `encode` of protocol.cpp.
use Prim.Native.Nat.{bit_and}
use aidin_hand2_sdk.Base.{ℕ, ◌+◌, ◌-◌, ◌*◌, ◌%◌, ◌^◌, ◌||◌, ◌==◌, ltb, if◌then◌else◌}
use aidin_hand2_sdk.Base.Arrays.{Array}
use aidin_hand2_sdk.Base.Bits.{is_set}
use aidin_hand2_sdk.Protocol.Frames.{
  StateFrames, CommandFrames, actuator_count, tactile_taxels_per_finger, palm1_upper_count,
  palm1_lower_count, palm2_count, home_offset_count,
}
use aidin_hand2_sdk.Protocol.Bytes.{
  read_word16_array, read_word32_array, write_word16_array, write_word32_array, write_byte_array,
}
use aidin_hand2_sdk.Protocol.Ids.{CanAbi, CanFrame, no_frame, HandCanIds}

pub data DecodeResult : Type 0 where
  unknown decoded conflicting_command error length_error : DecodeResult

-- int32_t additions, wrapping. (C++ leaves a signed overflow undefined.)
abbrev pub add32 : ℕ → ℕ → ℕ
add32 a b = (a + b) % 2 ^ 32

abbrev pub sub32 : ℕ → ℕ → ℕ
sub32 a b = (a + 2 ^ 32 - b) % 2 ^ 32

-- The minimum payloads, kLenPosition to kLenPalm2.
abbrev pub len_position : ℕ
len_position = actuator_count * 4

abbrev pub len_velocity : ℕ
len_velocity = actuator_count * 4

abbrev pub len_current : ℕ
len_current = actuator_count * 2

abbrev pub len_status : ℕ
len_status = 2 * actuator_count * 2

abbrev pub len_finger : ℕ
len_finger = tactile_taxels_per_finger * 2

abbrev pub len_palm_up : ℕ
len_palm_up = palm1_upper_count * 2

abbrev pub len_palm_low : ℕ
len_palm_low = palm1_lower_count * 2

abbrev pub len_palm2 : ℕ
len_palm2 = palm2_count * 2

-- One branch of `decode`: a payload that is long enough is stored.
abbrev pub accept : CanFrame → ℕ → StateFrames → StateFrames → StateFrames × DecodeResult
accept rx least stored frames =
    if ltb rx.len least then (frames, length_error) else (stored, decoded)

-- The chain of tests on the id behind the mask, from its end: the commands of another master.
unfoldable pub decode_command : HandCanIds → ℕ → StateFrames → StateFrames × DecodeResult
decode_command ids id frames =
    if id == ids.cmd_target_position
      || id == ids.cmd_target_effort
      || id == ids.cmd_control_word
      || id == ids.cmd_mode_of_operation
      || id == ids.cmd_homing_method
    then (frames, conflicting_command)
    else (frames, unknown)

-- The tests from the palm's frames on.
unfoldable pub decode_palm : HandCanIds → ℕ → CanFrame → StateFrames → StateFrames × DecodeResult
decode_palm ids id rx frames =
    let words16 = read_word16_array rx.payload 0 in
    if id == ids.tactile_palm1_upper
    then accept rx len_palm_up (record frames { palm1_upper = words16 }) frames
    else if id == ids.tactile_palm1_lower
    then accept rx len_palm_low (record frames { palm1_lower = words16 }) frames
    else if id == ids.tactile_palm2
    then accept rx len_palm2 (record frames { palm2 = words16 }) frames
    else decode_command ids id frames

-- The tests from the fingers' frames on.
unfoldable pub decode_finger : HandCanIds → ℕ → CanFrame → StateFrames → StateFrames × DecodeResult
decode_finger ids id rx frames =
    let words16 = read_word16_array rx.payload 0 in
    if id == ids.tactile_finger 0
    then accept rx len_finger (record frames { tactile_thumb = words16 }) frames
    else if id == ids.tactile_finger 1
    then accept rx len_finger (record frames { tactile_index = words16 }) frames
    else if id == ids.tactile_finger 2
    then accept rx len_finger (record frames { tactile_middle = words16 }) frames
    else if id == ids.tactile_finger 3
    then accept rx len_finger (record frames { tactile_ring = words16 }) frames
    else if id == ids.tactile_finger 4
    then accept rx len_finger (record frames { tactile_baby = words16 }) frames
    else decode_palm ids id rx frames

-- The whole chain.
unfoldable pub decode_id : HandCanIds → ℕ → CanFrame → StateFrames → StateFrames × DecodeResult
decode_id ids id rx frames =
    let words16 = read_word16_array rx.payload 0 in
    let words32 = read_word32_array rx.payload 0 in
    if id == ids.state_position
    then accept rx len_position
        (record frames { actual_position = λ i. sub32 (words32 i) home_offset_count }) frames
    else if id == ids.state_velocity
    then accept rx len_velocity (record frames { actual_velocity = words32 }) frames
    else if id == ids.state_current
    then accept rx len_current (record frames { actual_current = words16 }) frames
    else if id == ids.state_status_word
    then accept rx len_status
        (record frames { status_word = words16; error_code = read_word16_array rx.payload 32 })
        frames
    else decode_finger ids id rx frames

unfoldable pub decode : CanAbi → HandCanIds → CanFrame → StateFrames → StateFrames × DecodeResult
decode abi ids rx frames =
    if is_set rx.can_id abi.err_flag
    then (frames, error)
    else decode_id ids (bit_and rx.can_id abi.eff_mask) rx frames

pub record TxFrames : Type 0 where
  pub target_position : CanFrame
  pub target_effort : CanFrame
  pub control_word : CanFrame
  pub mode_of_operation : CanFrame
  pub homing_method : CanFrame

-- `TxFrames{}`.
abbrev pub no_tx_frames : TxFrames
no_tx_frames = record {
  target_position = no_frame;
  target_effort = no_frame;
  control_word = no_frame;
  mode_of_operation = no_frame;
  homing_method = no_frame;
}

abbrev header : CanAbi → ℕ → ℕ → CanFrame
header abi id length = record no_frame { can_id = id; len = length; flags = abi.brs }

unfoldable pub init_tx : CanAbi → HandCanIds → TxFrames
init_tx abi ids = record {
  target_position = header abi ids.cmd_target_position 64;
  target_effort = header abi ids.cmd_target_effort 64;
  control_word = header abi ids.cmd_control_word 32;
  mode_of_operation = header abi ids.cmd_mode_of_operation 16;
  homing_method = header abi ids.cmd_homing_method 16;
}

abbrev with_payload : CanFrame → Array ℕ → CanFrame
with_payload frame bytes = record frame { payload = bytes }

unfoldable pub encode : CommandFrames → TxFrames → TxFrames
encode frames tx = record {
  target_position = with_payload tx.target_position (
      write_word32_array actuator_count tx.target_position.payload 0
        (λ i. add32 (frames.target_position i) home_offset_count));
  target_effort = with_payload tx.target_effort (
      write_word16_array actuator_count
        (write_word16_array actuator_count tx.target_effort.payload 0 frames.target_effort) 32
        frames.max_effort);
  control_word =
      with_payload tx.control_word
        (write_word16_array actuator_count tx.control_word.payload 0 frames.control_word);
  mode_of_operation =
      with_payload tx.mode_of_operation
        (write_byte_array actuator_count tx.mode_of_operation.payload 0 frames.mode_of_operation);
  homing_method =
      with_payload tx.homing_method
        (write_byte_array actuator_count tx.homing_method.payload 0 frames.homing_method);
}
