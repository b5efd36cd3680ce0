-- ===== src/Protocol/Wire.antt =====
-- The payloads that `encode` of protocol.cpp builds, as the drives and `decode` read them.
use aidin_hand2_sdk.Base.{ℕ, ◌-◌, ◌^◌, ◌≤◌, ◌<◌, ◌≡◌, ap, false, ltb, arith}
use Prim.Native.Nat.{bit_and}
use aidin_hand2_sdk.Base.Bits.{is_set}
use aidin_hand2_sdk.Protocol.Frames.{StateFrames, CommandFrames, actuator_count, home_offset_count}
use aidin_hand2_sdk.Protocol.Bytes.{read_word16_array, read_word32_array}
use aidin_hand2_sdk.Protocol.RoundTrip.{
  read-write_word16_array, read-write_word32_array, read-write_byte_array, read-write_two,
}
use aidin_hand2_sdk.Protocol.Ids.{CanAbi, CanFrame, HandCanIds}
use aidin_hand2_sdk.Protocol.Codec.{TxFrames, decode, decode_id, decoded, encode, add32, sub32}

-- The values of a command are words of their width.
pub record Fits (frames : CommandFrames) (i : ℕ) : Type 0 where
  pub position : frames.target_position i < 2 ^ 32
  pub effort : frames.target_effort i < 2 ^ 16
  pub limit : frames.max_effort i < 2 ^ 16
  pub word : frames.control_word i < 2 ^ 16

-- A drive that reads the five payloads at actuator i's wire slot finds this actuator's command: the
-- target position shifted by the home offset (modulo 2 ^ 32), the target and maximum effort, the
-- control word, the mode of operation and the homing method.
pub encode-reads :
    (frames : CommandFrames) (tx : TxFrames) (i : ℕ)
    → Fits frames i
    → i < actuator_count
    → (read_word32_array (encode frames tx).target_position.payload 0 i
        ≡ add32 (frames.target_position i) home_offset_count)
      × (read_word16_array (encode frames tx).target_effort.payload 0 i ≡ frames.target_effort i)
      × (read_word16_array (encode frames tx).target_effort.payload 32 i ≡ frames.max_effort i)
      × (read_word16_array (encode frames tx).control_word.payload 0 i ≡ frames.control_word i)
      × ((encode frames tx).mode_of_operation.payload i ≡ frames.mode_of_operation i)
      × ((encode frames tx).homing_method.payload i ≡ frames.homing_method i)
unfolding encode
encode-reads frames tx i fits lt = (
  read-write_word32_array actuator_count tx.target_position.payload 0 _ i lt (omega arith),
  read-write_two actuator_count actuator_count tx.target_effort.payload 0 32 frames.target_effort
      frames.max_effort i (omega arith) lt fits.effort,
  read-write_word16_array actuator_count _ 32 frames.max_effort i lt fits.limit,
  read-write_word16_array actuator_count tx.control_word.payload 0 frames.control_word i lt
      fits.word,
  read-write_byte_array actuator_count tx.mode_of_operation.payload 0 frames.mode_of_operation i i
      (omega arith) lt,
  read-write_byte_array actuator_count tx.homing_method.payload 0 frames.homing_method i i
      (omega arith) lt,
)

add32-sub32 : (w : ℕ) → w < 2 ^ 32 → sub32 (add32 w home_offset_count) home_offset_count ≡ w
add32-sub32 w h = omega arith

-- Where a state frame of this hand carries back the position payload that `encode` wrote, `decode`
-- accepts it and reads the commanded target positions: the home offset added on the way out is taken
-- off on the way in, for every 32-bit word, also where the addition wraps.
pub decode-encode_position :
    (abi : CanAbi) (ids : HandCanIds) (frames : CommandFrames) (tx : TxFrames) (rx : CanFrame)
    (old : StateFrames) (i : ℕ)
    → is_set rx.can_id abi.err_flag ≡ false
    → bit_and rx.can_id abi.eff_mask ≡ ids.state_position
    → 64 ≤ rx.len
    → rx.payload ≡ (encode frames tx).target_position.payload
    → i < actuator_count
    → Fits frames i
    → ((decode abi ids rx old).1 ≡ decoded)
      × ((decode abi ids rx old).0.actual_position i ≡ frames.target_position i)
unfolding decode decode_id
decode-encode_position abi ids frames tx rx old i no_error id long same lt fits = ground (
  arith,
  (encode-reads frames tx i fits lt).0,
  add32-sub32 (frames.target_position i) fits.position,
  ap (λ p. read_word32_array p 0 i) same,
)

-- A target that is positive as an int32_t stays positive on the wire exactly if it lies at least 1000
-- counts below the largest one; the others leave as negative positions. (In C++ that addition is a
-- signed overflow.)
pub encode-position_sign :
    (frames : CommandFrames) (tx : TxFrames) (i : ℕ)
    → Fits frames i
    → i < actuator_count
    → frames.target_position i < 2 ^ 31
    → ltb (read_word32_array (encode frames tx).target_position.payload 0 i) (2 ^ 31)
      ≡ ltb (frames.target_position i) (2 ^ 31 - home_offset_count)
encode-position_sign frames tx i fits lt positive =
    ground (arith, (encode-reads frames tx i fits lt).0)
