-- ===== src/Base/Bits.antt =====
-- The bitwise "or" of two numbers with disjoint digits is their sum.
use Prim.Native.Nat.{
  ℕ, zero, suc, ◌+◌, ◌*◌, ◌/◌, ◌%◌, ◌^◌, ◌≤◌, ◌<◌, max, bit_or, digits, bit_or-bitwise,
}
use mathlib.Core.Path.{◌≡◌, refl, ap}
use native.Mathlib.Nat.{pow-suc}
use native.Mathlib.Omega.{arith}

-- The native operation is a recursion on digits with fuel; any fuel from the first number on serves.
or_digits_fuel :
    (n k a b : ℕ) → a ≤ n → a ≤ k → digits (λ y. y) max n a b ≡ digits (λ y. y) max k a b
or_digits_fuel zero zero a b p q = refl
or_digits_fuel zero (suc k) zero b p q = refl
or_digits_fuel zero (suc k) (suc a) b p q = absurd (omega arith)
or_digits_fuel (suc n) zero zero b p q = refl
or_digits_fuel (suc n) zero (suc a) b p q = absurd (omega arith)
or_digits_fuel (suc n) (suc k) zero b p q = refl
or_digits_fuel (suc n) (suc k) (suc a) b p q =
    omega (arith, or_digits_fuel n k (suc a / 2) (b / 2) (omega arith) (omega arith))

-- The lowest digit apart from the others.
pub bit_or_step : (x y : ℕ) → bit_or x y ≡ max (x % 2) (y % 2) + 2 * bit_or (x / 2) (y / 2)
bit_or_step zero y = omega (arith, bit_or-bitwise 0 (y / 2), bit_or-bitwise 0 y)
bit_or_step (suc x) y =
    let more = or_digits_fuel x (suc x / 2) (suc x / 2) (y / 2) (omega arith) (omega arith) in
    omega (arith, more, bit_or-bitwise (suc x / 2) (y / 2), bit_or-bitwise (suc x) y)

zero-bit_or : (b : ℕ) → bit_or 0 b ≡ b
zero-bit_or b = bit_or-bitwise 0 b

bit_or-zero_below : (n a : ℕ) → a ≤ n → bit_or a 0 ≡ a
bit_or-zero_below n zero h = zero-bit_or 0
bit_or-zero_below zero (suc a) h = absurd (omega arith)
bit_or-zero_below (suc n) (suc a) h =
    omega (arith, bit_or_step (suc a) 0, bit_or-zero_below n (suc a / 2) (omega arith))

shift-suc : (hi k : ℕ) → hi * 2 ^ suc k ≡ 2 * (hi * 2 ^ k)
shift-suc hi k = omega (arith, ap (λ (t : ℕ). hi * t) (pow-suc 2 k))

-- `lo | (hi << k)` for a `lo` of `k` bits.
pub bit_or_high : (k lo hi : ℕ) → lo < 2 ^ k → bit_or lo (hi * 2 ^ k) ≡ lo + hi * 2 ^ k
bit_or_high zero zero hi h = omega (arith, zero-bit_or (hi * 2 ^ 0))
bit_or_high zero (suc lo) hi h = absurd (omega arith)
bit_or_high (suc k) lo hi h = ground (
  arith,
  pow-suc 2 k,
  shift-suc hi k,
  bit_or_step lo (hi * 2 ^ suc k),
  bit_or_high k (lo / 2) hi (omega (arith, pow-suc 2 k)),
)

-- `(hi << k) | lo` likewise.
pub bit_or_low : (k hi lo : ℕ) → lo < 2 ^ k → bit_or (hi * 2 ^ k) lo ≡ hi * 2 ^ k + lo
bit_or_low zero hi zero h = omega (arith, bit_or-zero_below (hi * 2 ^ 0) (hi * 2 ^ 0) (omega arith))
bit_or_low zero hi (suc lo) h = absurd (omega arith)
bit_or_low (suc k) hi lo h = ground (
  arith,
  pow-suc 2 k,
  shift-suc hi k,
  bit_or_step (hi * 2 ^ suc k) lo,
  bit_or_low k hi (lo / 2) (omega (arith, pow-suc 2 k)),
)
