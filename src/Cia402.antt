-- ===== src/Cia402.antt =====
-- cpp/src/hand_core/comms/state_machine/cia402.hpp: the CiA402 status word tests and the choice of
-- one actuator's control word. Words are numbers; the masks are the header's constants.
pub mod Ladder
pub mod Drive
pub mod Settled
pub mod StatusWord
mod Tests
use aidin_hand2_sdk.Base.{ℕ, zero, suc, ◌+◌, Bool, true, false, not, ◌||◌, ◌==◌, if◌then◌else◌}
use aidin_hand2_sdk.Base.Arrays.{Array}
use aidin_hand2_sdk.Base.Bits.{is_set, matches_bits}

abbrev pub ready_to_switch_on : ℕ
ready_to_switch_on = 0x1

abbrev pub switched_on : ℕ
switched_on = 0x2

abbrev pub operation_enabled : ℕ
operation_enabled = 0x4

abbrev pub fault : ℕ
fault = 0x8

-- Active low: set normally, clear while the quick stop runs.
abbrev pub quick_stop_active : ℕ
quick_stop_active = 0x20

abbrev pub homing_attained : ℕ
homing_attained = 0x1000

abbrev pub homing_error : ℕ
homing_error = 0x2000

abbrev pub state_bits : ℕ
state_bits = 0x6F

abbrev pub operation_enabled_bits : ℕ
operation_enabled_bits = 0x27

unfoldable pub is_operation_enabled : ℕ → Bool
unfolding matches_bits
is_operation_enabled status = matches_bits status state_bits operation_enabled_bits

-- The loop of `enable_settled` over the actuators from `index` on, with its two flags.
unfoldable pub enable_settled_from : Array ℕ → Array ℕ → Array Bool → ℕ → ℕ → Bool → Bool → Bool
enable_settled_from status error_code disabled zero index any_present any_enabled =
    not any_present || any_enabled
enable_settled_from status error_code disabled (suc n) index any_present any_enabled =
    let skipped =
      enable_settled_from status error_code disabled n (index + 1) any_present any_enabled in
    let faulted = enable_settled_from status error_code disabled n (index + 1) true any_enabled in
    let enabled = enable_settled_from status error_code disabled n (index + 1) true true in
    if disabled index
    then skipped
    else if not (error_code index == 0)
    then faulted
    else if not (is_operation_enabled (status index))
    then false
    else enabled

unfoldable pub enable_settled : ℕ → Array ℕ → Array ℕ → Array Bool → Bool
unfolding enable_settled_from
enable_settled count status error_code disabled =
    enable_settled_from status error_code disabled count 0 false false

-- namespace control_word
abbrev pub quick_stop_word : ℕ
quick_stop_word = 0x02

abbrev pub shutdown_word : ℕ
shutdown_word = 0x06

abbrev pub switch_on_word : ℕ
switch_on_word = 0x07

abbrev pub enable_operation_word : ℕ
enable_operation_word = 0x0F

abbrev pub enable_operation_homing_word : ℕ
enable_operation_homing_word = 0x1F

abbrev pub fault_reset_word : ℕ
fault_reset_word = 0x80

pub data ControlWordMode : Type 0 where
  enable switch_on homing shutdown quick_stop : ControlWordMode

-- What `Enable` sends: the fault reset edge, or the next rung of the ladder.
enable_word : ℕ → ℕ → ℕ
enable_word status last_control_word =
    if is_set status fault
    then if last_control_word == fault_reset_word then shutdown_word else fault_reset_word
    else if is_set status 0x6
    then enable_operation_word
    else if is_set status ready_to_switch_on
    then switch_on_word
    else shutdown_word

unfoldable pub compute_control_word : ControlWordMode → ℕ → ℕ → ℕ
unfolding enable_word
compute_control_word homing status last = enable_operation_homing_word
compute_control_word switch_on status last = switch_on_word
compute_control_word shutdown status last = shutdown_word
compute_control_word quick_stop status last = quick_stop_word
compute_control_word enable status last = enable_word status last
