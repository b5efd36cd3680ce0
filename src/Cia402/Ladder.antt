-- ===== src/Cia402/Ladder.antt =====
-- What the control words of cia402.hpp do over several cycles, and to a drive that follows them.
use aidin_hand2_sdk.Base.{
  ℕ, ◌≡◌, refl, ◌⊎◌, Bool, true, false, not, ◌&&◌, ◌||◌, ◌==◌, arith, Bool-cases,
}
use aidin_hand2_sdk.Base.Bits.{is_set}
use aidin_hand2_sdk.Cia402.{
  ControlWordMode, enable, switch_on, homing, shutdown, quick_stop, compute_control_word,
  enable_operation_word, enable_operation_homing_word, fault_reset_word, shutdown_word,
  switch_on_word, quick_stop_word, fault, switched_on, operation_enabled,
}
use aidin_hand2_sdk.Cia402.StatusWord.{is_set-six}

-- While a drive reports a fault, two consecutive cycles in mode Enable send 0x80 and 0x06, in one
-- order or the other, whatever was sent before: so bit 7 rises in each pair of cycles.
pub fault_reset_edge :
    (last status status' : ℕ)
    → is_set status fault ≡ true
    → is_set status' fault ≡ true
    → let first = compute_control_word enable status last in
      let second = compute_control_word enable status' first in
      ((first ≡ fault_reset_word) × (second ≡ shutdown_word))
      ⊎ ((first ≡ shutdown_word) × (second ≡ fault_reset_word) × (last ≡ fault_reset_word))
unfolding compute_control_word
fault_reset_edge last status status' h k = ground arith

-- When a word may power the stage: to home, or up the ladder to a drive that reports no fault and
-- is Switched On or Operation Enabled already.
abbrev pub may_energise : ControlWordMode → ℕ → Bool
may_energise homing status = true
may_energise enable status =
    not (is_set status fault) && (is_set status operation_enabled || is_set status switched_on)
may_energise _ status = false

abbrev pub is_homing_mode : ControlWordMode → Bool
is_homing_mode homing = true
is_homing_mode _ = false

-- Bits 3, 4 and 1 of the words.
word_bits :
    (is_set enable_operation_homing_word 0x8 ≡ true)
    × (is_set enable_operation_homing_word 0x10 ≡ true)
    × (is_set enable_operation_homing_word 0x2 ≡ true)
    × (is_set enable_operation_word 0x8 ≡ true)
    × (is_set enable_operation_word 0x10 ≡ false)
    × (is_set enable_operation_word 0x2 ≡ true)
    × (is_set switch_on_word 0x8 ≡ false)
    × (is_set switch_on_word 0x10 ≡ false)
    × (is_set switch_on_word 0x2 ≡ true)
    × (is_set shutdown_word 0x8 ≡ false)
    × (is_set shutdown_word 0x10 ≡ false)
    × (is_set shutdown_word 0x2 ≡ true)
    × (is_set quick_stop_word 0x8 ≡ false)
    × (is_set quick_stop_word 0x10 ≡ false)
    × (is_set quick_stop_word 0x2 ≡ true)
    × (is_set fault_reset_word 0x8 ≡ false)
    × (is_set fault_reset_word 0x10 ≡ false)
    × (is_set fault_reset_word 0x2 ≡ false)
unfolding is_set
word_bits = (
  refl, refl, refl, refl, refl, refl, refl, refl, refl, refl, refl, refl, refl, refl, refl, refl,
  refl, refl,
)

-- In every mode, for every status and previous word: bit 3 (enable operation) of the word sent is set
-- exactly when the mode is Homing, or is Enable with a status that shows no fault and Switched On or
-- Operation Enabled; bit 4, the homing trigger, is set exactly in mode Homing; and bit 1 (enable
-- voltage) is clear only in the fault reset word.
pub compute_control_word-energises :
    (mode : ControlWordMode) (status last : ℕ)
    → (is_set (compute_control_word mode status last) 0x8 ≡ may_energise mode status)
      × (is_set (compute_control_word mode status last) 0x10 ≡ is_homing_mode mode)
      × (is_set (compute_control_word mode status last) 0x2
          ≡ not (compute_control_word mode status last == fault_reset_word))
unfolding compute_control_word
compute_control_word-energises enable status last = ground (
  arith,
  word_bits,
  is_set-six status,
  Bool-cases (is_set status fault),
  Bool-cases (last == fault_reset_word),
)
compute_control_word-energises homing status last = ground (arith, word_bits)
compute_control_word-energises switch_on status last = ground (arith, word_bits)
compute_control_word-energises shutdown status last = ground (arith, word_bits)
compute_control_word-energises quick_stop status last = ground (arith, word_bits)
