-- ===== src/Protocol/Tests.antt =====
-- Frames of the left hand, with the constants of the Linux headers.
use Prim.Native.Nat.{bit_and}
use aidin_hand2_sdk.Base.{◌-◌, ◌^◌, ◌≡◌, refl, true, false, ltb, arith}
use aidin_hand2_sdk.Base.Arrays.{fill}
use aidin_hand2_sdk.Base.Bits.{is_set}
use aidin_hand2_sdk.Protocol.Frames.{
  CommandFrames, no_state_frames, no_command_frames, home_offset_count,
}
use aidin_hand2_sdk.Protocol.Bytes.{read_word16_array, read_word32_array}
use aidin_hand2_sdk.Protocol.Ids.{
  CanAbi, CanFrame, no_frame, left, left_can_ids, hand_can_ids, rx_filters,
}
use aidin_hand2_sdk.Protocol.Codec.{
  decode, decode_id, decoded, length_error, encode, init_tx, TxFrames, add32,
}
use aidin_hand2_sdk.Protocol.Wire.{encode-reads, decode-encode_position, encode-position_sign, Fits}
use aidin_hand2_sdk.Protocol.Decoding.{listens}

abbrev pub linux : CanAbi
linux = record {
  err_flag = 0x20000000;
  eff_mask = 0x1FFFFFFF;
  sff_mask = 0x7FF;
  err_mask = 0x1FFFFFFF;
  brs = 1;
  err_prot = 0x8;
  err_prot_loc_ack = 0x19;
  err_ack = 0x20;
}

abbrev some_command : CommandFrames
some_command = record no_command_frames {
  target_position = fill 4000000000;
  target_effort = fill 64736;
  max_effort = fill 1000;
  control_word = fill 0x0F;
}

abbrev tx : TxFrames
tx = encode some_command (init_tx linux left_can_ids)

some_command-Fits : Fits some_command 15
some_command-Fits = record {
  position = omega arith;
  effort = omega arith;
  limit = omega arith;
  word = omega arith;
}

encode-reads_example :
    (read_word32_array tx.target_position.payload 0 15 ≡ add32 4000000000 home_offset_count)
    × (read_word16_array tx.target_effort.payload 0 15 ≡ 64736)
    × (read_word16_array tx.target_effort.payload 32 15 ≡ 1000)
    × (read_word16_array tx.control_word.payload 0 15 ≡ 0x0F)
    × (tx.mode_of_operation.payload 15 ≡ 0)
    × (tx.homing_method.payload 15 ≡ 0)
encode-reads_example =
    encode-reads some_command (init_tx linux left_can_ids) 15 some_command-Fits (omega arith)

-- The position payload, sent back.
abbrev echo : CanFrame
echo = record no_frame { can_id = 0x221; len = 64; payload = tx.target_position.payload }

-- A position frame of the left hand that is one byte short, and a frame of no hand.
abbrev short : CanFrame
short = record no_frame { can_id = 0x221; len = 63 }

short_checks :
    (is_set 0x221 0x20000000 ≡ false)
    × (bit_and 0x221 0x1FFFFFFF ≡ 0x221)
    × ((decode linux left_can_ids short no_state_frames).1 ≡ length_error)
    × (listens (rx_filters linux (hand_can_ids left)) (bit_and 0x221 0x1FFFFFFF) ≡ true)
unfolding is_set decode decode_id rx_filters
short_checks = (refl, refl, refl, refl)

decode-encode_position_example :
    ((decode linux left_can_ids echo no_state_frames).1 ≡ decoded)
    × ((decode linux left_can_ids echo no_state_frames).0.actual_position 15 ≡ 4000000000)
decode-encode_position_example =
    decode-encode_position linux left_can_ids some_command (init_tx linux left_can_ids) echo
      no_state_frames 15 short_checks.0 short_checks.1 (omega arith) refl (omega arith)
      some_command-Fits

-- The largest target that a command can name.
abbrev far_command : CommandFrames
far_command = record no_command_frames { target_position = fill (2 ^ 31 - 1) }

far_command-Fits : Fits far_command 0
far_command-Fits = record {
  position = omega arith;
  effort = omega arith;
  limit = omega arith;
  word = omega arith;
}

encode-position_sign_example :
    ltb
      (read_word32_array
        (encode far_command (init_tx linux left_can_ids)).target_position.payload
        0
        0)
      (2 ^ 31)
    ≡ ltb (2 ^ 31 - 1) (2 ^ 31 - home_offset_count)
encode-position_sign_example =
    encode-position_sign far_command (init_tx linux left_can_ids) 0 far_command-Fits (omega arith)
      (omega arith)
