-- ===== src/Base/Bits.antt =====
-- `status & mask`: the bit operations of the code are the native ones; here are the two tests that
-- the code makes with them and the laws that reduce a narrow mask to the low digits of a word.
use Prim.Native.Nat.{
  ℕ, zero, suc, ◌+◌, ◌*◌, ◌/◌, ◌%◌, ◌≤◌, ◌<◌, min, bit_and, digits, bit_and-bitwise,
}
use mathlib.Core.Path.{◌≡◌, refl, ap, sym, ◌∙◌}
use mathlib.Core.Bool.{Bool, not}
use native.Mathlib.Omega.{arith}
use aidin_hand2_sdk.Base.Tests.{◌==◌}

-- `(word & mask) != 0`, as a condition `if (word & mask)` reads it.
unfoldable pub is_set : ℕ → ℕ → Bool
is_set word mask = not (bit_and word mask == 0)

-- `(word & mask) == bits`.
unfoldable pub matches_bits : ℕ → ℕ → ℕ → Bool
matches_bits word mask bits = bit_and word mask == bits

-- The native operation is a recursion on the digits with fuel; any fuel that is large enough gives
-- the same number.
abbrev and_with : ℕ → ℕ → ℕ → ℕ
and_with fuel a b = digits (λ _. zero) min fuel a b

and_with-fuel : (f g a b : ℕ) → a ≤ f → a ≤ g → and_with f a b ≡ and_with g a b
and_with-fuel zero zero a b _ _ = refl
and_with-fuel zero (suc g) zero b _ _ = refl
and_with-fuel (suc f) zero zero b _ _ = refl
and_with-fuel (suc f) (suc g) zero b _ _ = refl
and_with-fuel zero (suc g) (suc a) b h k = absurd (omega arith)
and_with-fuel (suc f) zero (suc a) b h k = absurd (omega arith)
and_with-fuel (suc f) (suc g) (suc a) b h k =
    omega (arith, and_with-fuel f g (suc a / 2) (b / 2) (omega arith) (omega arith))

bit_and-zero_left : (b : ℕ) → bit_and zero b ≡ zero
bit_and-zero_left b = bit_and-bitwise zero b

pub bit_and-digit : (a b : ℕ) → bit_and a b ≡ 2 * bit_and (a / 2) (b / 2) + min (a % 2) (b % 2)
bit_and-digit zero b = omega (arith, bit_and-zero_left b, bit_and-zero_left (b / 2))
bit_and-digit (suc a) b = omega (
  arith,
  and_with-fuel a (suc a / 2) (suc a / 2) (b / 2) (omega arith) (omega arith),
  bit_and-bitwise (suc a / 2) (b / 2),
  bit_and-bitwise (suc a) b,
)

bit_and-zero_fuel : (f a : ℕ) → a ≤ f → bit_and a 0 ≡ 0
bit_and-zero_fuel f zero h = refl
bit_and-zero_fuel zero (suc a) h = absurd (omega arith)
bit_and-zero_fuel (suc f) (suc a) h =
    omega (arith, bit_and-digit (suc a) 0, bit_and-zero_fuel f (suc a / 2) (omega arith))

pub bit_and-zero : (a : ℕ) → bit_and a 0 ≡ 0
bit_and-zero a = bit_and-zero_fuel a a (omega arith)

-- Two words that agree in the lowest digit and, masked, in the others are masked to one number.
bit_and-congr :
    (a b m : ℕ)
    → bit_and (a / 2) (m / 2) ≡ bit_and (b / 2) (m / 2)
    → a % 2 ≡ b % 2
    → bit_and a m ≡ bit_and b m
bit_and-congr a b m h k = omega (arith, bit_and-digit a m, bit_and-digit b m)

-- A mask below 2 ^ k reads the k lowest digits only.
low1 : (w m : ℕ) → m < 2 → bit_and w m ≡ bit_and (w % 2) m
low1 w m h =
    bit_and-congr w (w % 2) m
      (omega (
        arith,
        bit_and-zero (w / 2),
        bit_and-zero (w % 2 / 2),
        ap (bit_and (w / 2)) (half-zero m h),
        ap (bit_and (w % 2 / 2)) (half-zero m h),
      ))
      (omega arith)
  where
    half-zero : (m : ℕ) → m < 2 → m / 2 ≡ 0
    half-zero m h = omega arith

module _ (p : ℕ) (low : (w m : ℕ) → m < p → bit_and w m ≡ bit_and (w % p) m)
    (halves : (w : ℕ) → (w % (2 * p) / 2 ≡ w / 2 % p) × (w % (2 * p) % 2 ≡ w % 2)) where
  low_double : (w m : ℕ) → m < 2 * p → bit_and w m ≡ bit_and (w % (2 * p)) m
  low_double w m h =
      bit_and-congr w (w % (2 * p)) m
        (low (w / 2) (m / 2) (omega arith) ∙ ap (λ t. bit_and t (m / 2)) (sym (halves w).0))
        (sym (halves w).1)

low16 : (w m : ℕ) → m < 16 → bit_and w m ≡ bit_and (w % 16) m
low16 =
    low_double 8 (low_double 4 (low_double 2 low1 (λ w. omega arith)) (λ w. omega arith))
      (λ w. omega arith)

pub bit_and-low7 : (w m : ℕ) → m < 128 → bit_and w m ≡ bit_and (w % 128) m
bit_and-low7 =
    low_double 64 (low_double 32 (low_double 16 low16 (λ w. omega arith)) (λ w. omega arith))
      (λ w. omega arith)
