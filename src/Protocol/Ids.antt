-- ===== src/Protocol/Ids.antt =====
-- The CAN identifiers of protocol.hpp and protocol.cpp, and the frames of linux/can.h. The header is
-- the kernel's: its masks and flags are the argument `abi` of what uses them.
use aidin_hand2_sdk.Base.{ℕ, List, [], ◌∷◌}
use aidin_hand2_sdk.Base.Arrays.{Array, fill}

-- The constants of linux/can.h and linux/can/error.h that the code names.
pub record CanAbi : Type 0 where
  pub err_flag : ℕ  -- CAN_ERR_FLAG
  pub eff_mask : ℕ  -- CAN_EFF_MASK
  pub sff_mask : ℕ  -- CAN_SFF_MASK
  pub err_mask : ℕ  -- CAN_ERR_MASK
  pub brs : ℕ  -- CANFD_BRS
  pub err_prot : ℕ  -- CAN_ERR_PROT
  pub err_prot_loc_ack : ℕ  -- CAN_ERR_PROT_LOC_ACK
  pub err_ack : ℕ  -- CAN_ERR_ACK

-- canfd_frame: id with flags, payload length, flags, 64 bytes of payload.
pub record CanFrame : Type 0 where
  pub can_id : ℕ
  pub len : ℕ
  pub flags : ℕ
  pub payload : Array ℕ

-- `canfd_frame{}`.
abbrev pub no_frame : CanFrame
no_frame = record { can_id = 0; len = 0; flags = 0; payload = fill 0 }

pub data HandSide : Type 0 where
  left right : HandSide

pub record HandCanIds : Type 0 where
  pub state_position : ℕ
  pub state_velocity : ℕ
  pub state_current : ℕ
  pub state_status_word : ℕ
  pub tactile_finger : Array ℕ
  pub tactile_palm1_upper : ℕ
  pub tactile_palm1_lower : ℕ
  pub tactile_palm2 : ℕ
  pub cmd_target_position : ℕ
  pub cmd_target_effort : ℕ
  pub cmd_control_word : ℕ
  pub cmd_mode_of_operation : ℕ
  pub cmd_homing_method : ℕ

-- `{first, …}`, five ids in a row.
abbrev row : List ℕ → Array ℕ
row [] i = 0
row (x ∷ xs) ℕ.zero = x
row (x ∷ xs) (ℕ.suc i) = row xs i

abbrev pub left_can_ids : HandCanIds
left_can_ids = record {
  state_position = 0x221;
  state_velocity = 0x222;
  state_current = 0x223;
  state_status_word = 0x224;
  tactile_finger = row (0x231 ∷ 0x232 ∷ 0x233 ∷ 0x234 ∷ 0x235 ∷ []);
  tactile_palm1_upper = 0x236;
  tactile_palm1_lower = 0x237;
  tactile_palm2 = 0x238;
  cmd_target_position = 0x211;
  cmd_target_effort = 0x212;
  cmd_control_word = 0x213;
  cmd_mode_of_operation = 0x214;
  cmd_homing_method = 0x215;
}

abbrev pub right_can_ids : HandCanIds
right_can_ids = record {
  state_position = 0x121;
  state_velocity = 0x122;
  state_current = 0x123;
  state_status_word = 0x124;
  tactile_finger = row (0x131 ∷ 0x132 ∷ 0x133 ∷ 0x134 ∷ 0x135 ∷ []);
  tactile_palm1_upper = 0x136;
  tactile_palm1_lower = 0x137;
  tactile_palm2 = 0x138;
  cmd_target_position = 0x111;
  cmd_target_effort = 0x112;
  cmd_control_word = 0x113;
  cmd_mode_of_operation = 0x114;
  cmd_homing_method = 0x115;
}

abbrev pub hand_can_ids : HandSide → HandCanIds
hand_can_ids left = left_can_ids
hand_can_ids right = right_can_ids

-- `Protocol::rx_filters`: the ids that the kernel lets through, each with the standard-frame mask.
unfoldable pub rx_filters : CanAbi → HandCanIds → List (ℕ × ℕ)
rx_filters abi ids =
    (ids.state_position, abi.sff_mask)
    ∷ (ids.state_velocity, abi.sff_mask)
    ∷ (ids.state_current, abi.sff_mask)
    ∷ (ids.state_status_word, abi.sff_mask)
    ∷ (ids.tactile_finger 0, abi.sff_mask)
    ∷ (ids.tactile_finger 1, abi.sff_mask)
    ∷ (ids.tactile_finger 2, abi.sff_mask)
    ∷ (ids.tactile_finger 3, abi.sff_mask)
    ∷ (ids.tactile_finger 4, abi.sff_mask)
    ∷ (ids.tactile_palm1_upper, abi.sff_mask)
    ∷ (ids.tactile_palm1_lower, abi.sff_mask)
    ∷ (ids.tactile_palm2, abi.sff_mask)
    ∷ (ids.cmd_target_position, abi.sff_mask)
    ∷ (ids.cmd_target_effort, abi.sff_mask)
    ∷ (ids.cmd_control_word, abi.sff_mask)
    ∷ (ids.cmd_mode_of_operation, abi.sff_mask)
    ∷ (ids.cmd_homing_method, abi.sff_mask)
    ∷ []
