-- ===== src/Cia402/Tests.antt =====
-- The words of cia402.hpp at concrete statuses, and a concrete drive.
use aidin_hand2_sdk.Base.{ℕ, ◌≡◌, refl, Bool, true, false, ◌==◌, if◌then◌else◌, arith}
use aidin_hand2_sdk.Base.Arrays.{Array}
use aidin_hand2_sdk.Base.Bits.{is_set, matches_bits}
use aidin_hand2_sdk.Cia402.{fault, ready_to_switch_on, is_operation_enabled}
use aidin_hand2_sdk.Cia402.Drive.{FollowsLadder, cycles, cycles-enabled, plain_drive}

-- Actuator 1 is off the air and disabled, actuator 2 faulted, the others are up.
abbrev some_status : Array ℕ
some_status i = if i == 1 then 0 else if i == 2 then 0x08 else 0x27

abbrev some_errors : Array ℕ
some_errors i = if i == 2 then 0x7305 else 0

abbrev some_disabled : Array Bool
some_disabled i = i == 1

faulted : (is_set 0x08 fault ≡ true) × (is_set 0x18 fault ≡ true)
unfolding is_set
faulted = (refl, refl)

plain_words :
    (is_set 0x40 fault ≡ false)
    × (is_set 0x21 fault ≡ false)
    × (is_set 0x21 ready_to_switch_on ≡ true)
    × (is_set 0x23 fault ≡ false)
    × (is_set 0x23 0x6 ≡ true)
    × (is_operation_enabled 0x27 ≡ true)
unfolding is_set is_operation_enabled matches_bits
plain_words = (refl, refl, refl, refl, refl, refl)

plain_drive-FollowsLadder : FollowsLadder plain_drive
plain_drive-FollowsLadder = record {
  resets = λ last status h. ground (arith, plain_words);
  readies = λ last status h. ground (arith, plain_words);
  switches = λ last status h k. ground (arith, plain_words);
  enables = λ last status h k. ground (arith, plain_words);
}

-- From a fault whose reset was sent just before.
cycles-enabled_example : is_operation_enabled (cycles plain_drive 5 (0x80, 0x08)).1 ≡ true
cycles-enabled_example =
    cycles-enabled plain_drive plain_drive-FollowsLadder 0x80 0x08 5 (omega arith)
