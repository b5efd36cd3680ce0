-- ===== src/Cia402/StatusWord.antt =====
-- The pattern test `is_operation_enabled` of cia402.hpp against the single status bits.
use aidin_hand2_sdk.Base.{ℕ, ◌%◌, ◌<◌, ◌≡◌, refl, sym, Bool, true, false, not, ◌&&◌, ◌||◌, arith}
use aidin_hand2_sdk.Base.Arrays.{all_below, all_from, all_below→}
use aidin_hand2_sdk.Base.Bits.{is_set, bit_and-low7}
use aidin_hand2_sdk.Cia402.{
  is_operation_enabled, operation_enabled, fault, quick_stop_active, switched_on,
  ready_to_switch_on, state_bits,
}

agree : Bool → Bool → Bool
agree true b = b
agree false b = not b

agree→ : (a b : Bool) → agree a b ≡ true → a ≡ b
unfolding agree
agree→ true b h = sym h
agree→ false b h = ground arith

-- The six state bits, one test each.
abbrev pub enabled_by_bits : ℕ → Bool
enabled_by_bits status =
    is_set status ready_to_switch_on
    && is_set status switched_on
    && is_set status operation_enabled
    && not (is_set status fault)
    && is_set status quick_stop_active
    && not (is_set status 0x40)

table :
    all_below 128 (λ status. agree (is_operation_enabled status) (enabled_by_bits status)) ≡ true
unfolding all_from agree is_operation_enabled is_set
table = refl

is_set-low7 : (status mask : ℕ) → mask < 128 → is_set status mask ≡ is_set (status % 128) mask
unfolding is_set
is_set-low7 status mask h = rw (bit_and-low7 status mask h)

is_operation_enabled-low7 :
    (status : ℕ) → is_operation_enabled status ≡ is_operation_enabled (status % 128)
unfolding is_operation_enabled
is_operation_enabled-low7 status = rw (bit_and-low7 status state_bits (omega arith))

-- The whole-pattern test of the status word holds exactly when Ready To Switch On, Switched On,
-- Operation Enabled and the active-low Quick Stop bit are set, and Fault and bit 6 are clear, for a
-- status word of any width.
pub is_operation_enabled-bits : (status : ℕ) → is_operation_enabled status ≡ enabled_by_bits status
is_operation_enabled-bits status = ground (
  arith,
  agree→ (is_operation_enabled (status % 128)) (enabled_by_bits (status % 128)) (
      all_below→ 128 (λ s. agree (is_operation_enabled s) (enabled_by_bits s)) (status % 128) table
        (omega arith)),
  is_operation_enabled-low7 status,
  is_set-low7 status ready_to_switch_on (omega arith),
  is_set-low7 status switched_on (omega arith),
  is_set-low7 status operation_enabled (omega arith),
  is_set-low7 status fault (omega arith),
  is_set-low7 status quick_stop_active (omega arith),
  is_set-low7 status 0x40 (omega arith),
)

-- What the other components take from it: no fault, and bits 1 and 2 set.
pub enabled-no_fault :
    (status : ℕ) → is_operation_enabled status ≡ true → is_set status fault ≡ false
enabled-no_fault status h = ground (arith, is_operation_enabled-bits status)

pub enabled-is_set :
    (status : ℕ)
    → is_operation_enabled status ≡ true
    → (is_set status operation_enabled ≡ true) × (is_set status quick_stop_active ≡ true)
enabled-is_set status h = ground (arith, is_operation_enabled-bits status)

is_set-six_table :
    all_below 128 (λ status.
      agree (is_set status 0x6) (is_set status operation_enabled || is_set status switched_on))
    ≡ true
unfolding all_from agree is_set
is_set-six_table = refl

pub is_set-six :
    (status : ℕ)
    → is_set status 0x6 ≡ (is_set status operation_enabled || is_set status switched_on)
is_set-six status = ground (
  arith,
  agree→ (is_set (status % 128) 0x6)
      (is_set (status % 128) operation_enabled || is_set (status % 128) switched_on)
      (all_below→ 128
        (λ s. agree (is_set s 0x6) (is_set s operation_enabled || is_set s switched_on))
        (status % 128) is_set-six_table (omega arith)),
  is_set-low7 status 0x6 (omega arith),
  is_set-low7 status operation_enabled (omega arith),
  is_set-low7 status switched_on (omega arith),
)
