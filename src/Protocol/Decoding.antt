-- ===== src/Protocol/Decoding.antt =====
-- What `decode` of protocol.cpp makes of a frame, by its identifier and length.
use Prim.Native.Nat.{bit_and}
use aidin_hand2_sdk.Base.{ℕ, ◌≡◌, ◌≢◌, Bool, true, false, not, ◌||◌, ◌==◌, arith, List, [], ◌∷◌}
use aidin_hand2_sdk.Base.Bits.{is_set}
use aidin_hand2_sdk.Protocol.Frames.{StateFrames}
use aidin_hand2_sdk.Protocol.Ids.{
  CanAbi, CanFrame, HandCanIds, HandSide, left, right, hand_can_ids, rx_filters,
}
use aidin_hand2_sdk.Protocol.Codec.{
  DecodeResult, unknown, decoded, decode, decode_id, decode_finger, decode_palm, decode_command,
}

-- Whether a filter list names an id.
abbrev pub listens : List (ℕ × ℕ) → ℕ → Bool
listens [] id = false
listens ((wanted, mask) ∷ filters) id = id == wanted || listens filters id

abbrev pub is_unknown : DecodeResult → Bool
is_unknown unknown = true
is_unknown _ = false

-- A result that stores nothing unless the frame was decoded.
record Unchanged (frames : StateFrames) (r : StateFrames × DecodeResult) : Type 0 where
  same : r.1 ≢ decoded → r.0 ≡ frames

module _ (ids : HandCanIds) (id : ℕ) (rx : CanFrame) (frames : StateFrames) where
  decode_command-Unchanged : Unchanged frames (decode_command ids id frames)
  unfolding decode_command
  decode_command-Unchanged = record { same = λ ne. ground arith }

  decode_palm-Unchanged : Unchanged frames (decode_palm ids id rx frames)
  unfolding decode_palm
  decode_palm-Unchanged = record { same = λ ne. ground (arith, decode_command-Unchanged.same) }

  decode_finger-Unchanged : Unchanged frames (decode_finger ids id rx frames)
  unfolding decode_finger
  decode_finger-Unchanged = record { same = λ ne. ground (arith, decode_palm-Unchanged.same) }

  decode_id-Unchanged : Unchanged frames (decode_id ids id rx frames)
  unfolding decode_id
  decode_id-Unchanged = record { same = λ ne. ground (arith, decode_finger-Unchanged.same) }

-- What comes of a frame does not depend on what was stored before.
module _ (ids : HandCanIds) (id : ℕ) (rx : CanFrame) (a b : StateFrames) where
  decode_command-same : (decode_command ids id a).1 ≡ (decode_command ids id b).1
  unfolding decode_command
  decode_command-same = ground arith

  decode_palm-same : (decode_palm ids id rx a).1 ≡ (decode_palm ids id rx b).1
  unfolding decode_palm
  decode_palm-same = ground (arith, decode_command-same)

  decode_finger-same : (decode_finger ids id rx a).1 ≡ (decode_finger ids id rx b).1
  unfolding decode_finger
  decode_finger-same = ground (arith, decode_palm-same)

  decode_id-same : (decode_id ids id rx a).1 ≡ (decode_id ids id rx b).1
  unfolding decode_id
  decode_id-same = ground (arith, decode_finger-same)

pub decode-same :
    (abi : CanAbi) (ids : HandCanIds) (rx : CanFrame) (a b : StateFrames)
    → (decode abi ids rx a).1 ≡ (decode abi ids rx b).1
unfolding decode
decode-same abi ids rx a b =
    ground (arith, decode_id-same ids (bit_and rx.can_id abi.eff_mask) rx a b)

-- A frame that is not stored, for whatever reason, changes none of the signals.
pub decode_unchanged :
    (abi : CanAbi) (ids : HandCanIds) (rx : CanFrame) (frames : StateFrames)
    → (decode abi ids rx frames).1 ≢ decoded
    → (decode abi ids rx frames).0 ≡ frames
unfolding decode
decode_unchanged abi ids rx frames h =
    ground (arith, (decode_id-Unchanged ids (bit_and rx.can_id abi.eff_mask) rx frames).same)

-- The filters that the kernel is given let through exactly the ids that `decode` knows: without the
-- error flag, the masked id is on the list if and only if the result is not Unknown.
pub listens-decode :
    (abi : CanAbi) (ids : HandCanIds) (rx : CanFrame) (frames : StateFrames)
    → is_set rx.can_id abi.err_flag ≡ false
    → listens (rx_filters abi ids) (bit_and rx.can_id abi.eff_mask)
      ≡ not (is_unknown (decode abi ids rx frames).1)
unfolding decode decode_id decode_finger decode_palm decode_command rx_filters
listens-decode abi ids rx frames h = ground arith

abbrev pub other : HandSide → HandSide
other left = right
other right = left

-- A frame of the other hand, state or command, is Unknown to this hand's protocol and stores nothing.
pub decode-other_side :
    (abi : CanAbi) (side : HandSide) (rx : CanFrame) (frames : StateFrames)
    → is_set rx.can_id abi.err_flag ≡ false
    → listens (rx_filters abi (hand_can_ids (other side))) (bit_and rx.can_id abi.eff_mask) ≡ true
    → decode abi (hand_can_ids side) rx frames ≡ (frames, unknown)
unfolding decode decode_id decode_finger decode_palm decode_command rx_filters
decode-other_side abi left rx frames h k = ground arith
decode-other_side abi right rx frames h k = ground arith
