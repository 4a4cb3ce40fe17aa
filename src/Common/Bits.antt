-- ===== src/Common/Bits.antt =====
-- Bitwise or of numbers whose bits do not overlap.
use Prim.Native.Nat.{
  ℕ, zero, suc, ◌+◌, ◌*◌, ◌/◌, ◌%◌, ◌^◌, ◌≤◌, ◌<◌, max, bit_or, digits, bit_or-bitwise,
}
use mathlib.Core.Path.{◌≡◌, refl}
use native.Mathlib.Omega.{arith}
use native.Mathlib.Nat.{pow-suc}

abbrev or_digits : ℕ → ℕ → ℕ → ℕ
or_digits n a b = digits (λ b. b) max n a b

or_digits_fuel : (n m a b : ℕ) → a ≤ n → a ≤ m → or_digits n a b ≡ or_digits m a b
or_digits_fuel zero zero a b p q = refl
or_digits_fuel zero (suc m) zero b p q = refl
or_digits_fuel zero (suc m) (suc a) b p q = absurd (omega arith)
or_digits_fuel (suc n) zero zero b p q = refl
or_digits_fuel (suc n) zero (suc a) b p q = absurd (omega arith)
or_digits_fuel (suc n) (suc m) zero b p q = refl
or_digits_fuel (suc n) (suc m) (suc a) b p q =
    omega (arith, or_digits_fuel n m (suc a / 2) (b / 2) (omega arith) (omega arith))

zero-bit_or : (b : ℕ) → bit_or 0 b ≡ b
zero-bit_or b = bit_or-bitwise 0 b

-- The lowest digit of a bitwise or.
pub bit_or_step : (a b : ℕ) → bit_or a b ≡ bit_or (a / 2) (b / 2) * 2 + max (a % 2) (b % 2)
bit_or_step zero b = omega (arith, zero-bit_or b, zero-bit_or (b / 2))
bit_or_step (suc a) b = omega (
  arith,
  bit_or-bitwise (suc a) b,
  bit_or-bitwise (suc a / 2) (b / 2),
  or_digits_fuel a (suc a / 2) (suc a / 2) (b / 2) (omega arith) (omega arith),
)

bit_or-zero_fuel : (n a : ℕ) → a ≤ n → bit_or a 0 ≡ a
bit_or-zero_fuel n zero h = refl
bit_or-zero_fuel zero (suc a) h = absurd (omega arith)
bit_or-zero_fuel (suc n) (suc a) h =
    omega (arith, bit_or_step (suc a) 0, bit_or-zero_fuel n (suc a / 2) (omega arith))

-- A field below the others is added.
pub bit_or_low : (k hi lo : ℕ) → lo < 2 ^ k → bit_or (hi * 2 ^ k) lo ≡ hi * 2 ^ k + lo
bit_or_low zero hi zero h = omega (arith, bit_or-zero_fuel (hi * 1) (hi * 1) (omega arith))
bit_or_low zero hi (suc lo) h = absurd (omega arith)
bit_or_low (suc k) hi lo h =
    let full : hi * 2 ^ suc k ≡ hi * 2 ^ k * 2 = rw (pow-suc 2 k) (omega arith) in
    let below : lo / 2 < 2 ^ k = omega (arith, pow-suc 2 k) in
    let half : hi * 2 ^ k * 2 / 2 ≡ hi * 2 ^ k = omega arith in
    rw (full, bit_or_step, half, bit_or_low k hi (lo / 2) below) (omega arith)

-- The same for a number that is known to be a multiple.
pub bit_or_multiple : (k q x lo : ℕ) → x ≡ q * 2 ^ k → lo < 2 ^ k → bit_or x lo ≡ x + lo
bit_or_multiple k q x lo e h = rw e (bit_or_low k q lo h)
