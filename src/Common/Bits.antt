-- ===== src/Common/Bits.antt =====
-- Masks and shifts of bytes as arithmetic.
use Prim.Native.Nat.{
  ℕ, zero, suc, ◌+◌, ◌*◌, ◌/◌, ◌%◌, ◌≤◌, ◌<◌, max, bit_and, bit_or, digits, bit_or-bitwise,
}
use mathlib.Core.Path.{◌≡◌, refl, ap}
use mathlib.Core.Bool.{Bool, true, ◌&&◌}
use native.Mathlib.Omega.{arith}
use arc_remote_signer.Common.Tests.{◌==◌, ==_iff}

holds_below : (ℕ → Bool) → ℕ → Bool
holds_below test zero = true
holds_below test (suc bound) = holds_below test bound && test bound

holds_below-at :
    (test : ℕ → Bool) (bound b : ℕ) → b < bound → holds_below test bound ≡ true → test b ≡ true
unfolding holds_below
holds_below-at test zero b small all = absurd (omega arith)
holds_below-at test (suc bound) b small all =
    ground (arith, ==_iff b bound, holds_below-at test bound b)

pub top_bit : (b : ℕ) → b < 256 → bit_and b 0x80 ≡ b / 128 * 128
unfolding holds_below
top_bit b h = (==_iff _ _).0 (holds_below-at (λ x. bit_and x 0x80 == x / 128 * 128) 256 b h refl)

pub low_bits : (b : ℕ) → b < 256 → bit_and b 0x7f ≡ b % 128
unfolding holds_below
low_bits b h = (==_iff _ _).0 (holds_below-at (λ x. bit_and x 0x7f == x % 128) 256 b h refl)

pub or_top_bit : (b : ℕ) → b < 128 → bit_or 0x80 b ≡ b + 128
unfolding holds_below
or_top_bit b h = (==_iff _ _).0 (holds_below-at (λ x. bit_or 0x80 x == x + 128) 128 b h refl)

-- The recursion on digits behind `bit_or`; any count that covers the first number serves.
abbrev or_digits : ℕ → ℕ → ℕ → ℕ
or_digits n a b = digits (λ b. b) max n a b

or_digits_fuel : (n m a b : ℕ) → a ≤ n → a ≤ m → or_digits n a b ≡ or_digits m a b
or_digits_fuel zero zero a b p q = refl
or_digits_fuel zero (suc m) zero b p q = refl
or_digits_fuel zero (suc m) (suc a) b p q = absurd (omega arith)
or_digits_fuel (suc n) zero zero b p q = refl
or_digits_fuel (suc n) zero (suc a) b p q = absurd (omega arith)
or_digits_fuel (suc n) (suc m) zero b p q = refl
or_digits_fuel (suc n) (suc m) (suc a) b p q =
    omega (arith, or_digits_fuel n m (suc a / 2) (b / 2) (omega arith) (omega arith))

zero-bit_or : (b : ℕ) → bit_or 0 b ≡ b
zero-bit_or b = bit_or-bitwise 0 b

bit_or_step : (a b : ℕ) → bit_or a b ≡ bit_or (a / 2) (b / 2) * 2 + max (a % 2) (b % 2)
bit_or_step zero b = omega (arith, zero-bit_or b, zero-bit_or (b / 2))
bit_or_step (suc a) b = omega (
  arith,
  bit_or-bitwise (suc a) b,
  bit_or-bitwise (suc a / 2) (b / 2),
  or_digits_fuel a (suc a / 2) (suc a / 2) (b / 2) (omega arith) (omega arith),
)

bit_or-zero_fuel : (n a : ℕ) → a ≤ n → bit_or a 0 ≡ a
bit_or-zero_fuel n zero h = refl
bit_or-zero_fuel zero (suc a) h = absurd (omega arith)
bit_or-zero_fuel (suc n) (suc a) h =
    omega (arith, bit_or_step (suc a) 0, bit_or-zero_fuel n (suc a / 2) (omega arith))

bit_or-double : (x b : ℕ) → bit_or (x * 2) b ≡ bit_or x (b / 2) * 2 + b % 2
bit_or-double x b =
    let e : x * 2 / 2 ≡ x = omega arith in
    omega (arith, bit_or_step (x * 2) b, ap (λ (t : ℕ). bit_or t (b / 2)) e)

-- `x << 4 | n` for a number of four bits.
bit_or-shift_four : (x b : ℕ) → bit_or (x * 16) b ≡ bit_or x (b / 16) * 16 + b % 16
bit_or-shift_four x b =
    let e₁ : x * 16 ≡ x * 8 * 2 = omega arith in
    let e₂ : x * 8 ≡ x * 4 * 2 = omega arith in
    let e₃ : x * 4 ≡ x * 2 * 2 = omega arith in
    omega (
      arith,
      ap (λ (t : ℕ). bit_or t b) e₁,
      bit_or-double (x * 8) b,
      ap (λ (t : ℕ). bit_or t (b / 2)) e₂,
      bit_or-double (x * 4) (b / 2),
      ap (λ (t : ℕ). bit_or t (b / 2 / 2)) e₃,
      bit_or-double (x * 2) (b / 2 / 2),
      bit_or-double x (b / 2 / 2 / 2),
      ap (λ (t : ℕ). bit_or x t) (let e : b / 2 / 2 / 2 / 2 ≡ b / 16 = omega arith in e),
    )

-- `x << 8 | b` for a byte.
pub bit_or-shift_eight : (x b : ℕ) → b < 256 → bit_or (x * 256) b ≡ x * 256 + b
bit_or-shift_eight x b h =
    let e₁ : x * 256 ≡ x * 16 * 16 = omega arith in
    let e₂ : b / 16 / 16 ≡ 0 = omega arith in
    omega (
      arith,
      ap (λ (t : ℕ). bit_or t b) e₁,
      bit_or-shift_four (x * 16) b,
      bit_or-shift_four x (b / 16),
      ap (λ (t : ℕ). bit_or x t) e₂,
      bit_or-zero_fuel x x (omega arith),
    )
