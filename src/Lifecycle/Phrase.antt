-- ===== src/Lifecycle/Phrase.antt =====
-- The message rendering of action_check.cpp.
use Prim.Native.Nat.{◌/◌}
use Prim.Native.String.{String, ◌++◌}
use aidin_hand2_sdk.Base.{
  ℕ, zero, suc, ◌-◌, ◌%◌, ◌^◌, ◌||◌, ◌==◌, leb, ltb, if◌then◌else◌, List, [], ◌∷◌,
}
use aidin_hand2_sdk.Base.Bits.{is_set}
use aidin_hand2_sdk.Protocol.Ids.{CanAbi}
use aidin_hand2_sdk.Types.Events.{
  StopCause, receive_silence, transmit_failure, control_loop_failure,
}

-- What the platform says of an errno: std::generic_category().message.
abbrev pub Platform : Type 0
Platform = ℕ → String

abbrev pub pick : List String → ℕ → String
pick [] n = ""
pick (text ∷ texts) zero = text
pick (text ∷ texts) (suc n) = pick texts n

abbrev pub digit : ℕ → String
digit n =
    pick
      ("0" ∷ "1" ∷ "2" ∷ "3" ∷ "4" ∷ "5" ∷ "6" ∷ "7" ∷ "8" ∷ "9" ∷ "A" ∷ "B" ∷ "C" ∷ "D" ∷ "E" ∷ "F"
        ∷ [])
      n

-- std::to_string: twenty digits are enough for 64 bits.
unfoldable pub decimal : ℕ → ℕ → String
decimal zero n = ""
decimal (suc fuel) n =
    let high = decimal fuel (n / 10) in if ltb n 10 then digit n else high ++ digit (n % 10)

abbrev pub to_string : ℕ → String
to_string n = decimal 20 n

-- canfd::DecodeResult as a number, its negative ones as int32_t bit patterns.
unfoldable pub receive_anomaly_suffix : CanAbi → ℕ → ℕ → ℕ → String
receive_anomaly_suffix abi bus_off decode_result can_error_class =
    if decode_result == 2 ^ 32 - 1
    then if is_set can_error_class bus_off
      then ", last RX error: bus off"
      else if is_set can_error_class abi.err_ack
      then ", last RX error: bus error (no ACK)"
      else ", last RX error: bus error"
    else if decode_result == 2 ^ 32 - 2
    then ", last RX error: malformed data"
    else if decode_result == 2
    then ", last RX error: conflicting command"
    else if decode_result == 0
    then ", last RX error: unknown data"
    else ""

-- An int32_t is 0 or negative if its pattern is 0 or has bit 31.
unfoldable pub transmit_errno_suffix : Platform → ℕ → String
transmit_errno_suffix platform transmit_errno =
    if transmit_errno == 0 || leb (2 ^ 31) transmit_errno
    then ""
    else " (errno " ++ to_string transmit_errno ++ ": " ++ platform transmit_errno ++ ")"

unfoldable pub to_hex16 : ℕ → String
to_hex16 value =
    "0x"
    ++ digit (value / 4096 % 16)
    ++ digit (value / 256 % 16)
    ++ digit (value / 16 % 16)
    ++ digit (value % 16)

unfoldable pub stop_cause_phrase : CanAbi → ℕ → Platform → StopCause → String
stop_cause_phrase abi bus_off platform cause = elim cause.reason [
  | receive_silence ↦
      "no RX since cycle "
      ++ to_string cause.cycle
      ++ receive_anomaly_suffix abi bus_off cause.detail cause.can_error_class
  | transmit_failure ↦
      "CAN TX failed at cycle "
      ++ to_string cause.cycle
      ++ transmit_errno_suffix platform cause.detail
  | control_loop_failure ↦ "control loop terminated at cycle " ++ to_string cause.cycle
  | _ ↦ "cause not recorded"
]
