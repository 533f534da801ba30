-- ===== src/Base/Words.antt =====
-- Machine words as native numbers. A cast is the remainder by a power of two, and arithmetic
-- that leaves its type wraps, as a release build of the source does.
use Prim.Native.Nat.{ℕ, ◌+◌, ◌-◌, ◌*◌, ◌/◌, ◌%◌, ◌^◌, ◌≤◌, ◌<◌}
use native.Mathlib.Nat.{mul-le-mul}
use native.Mathlib.Omega.{arith}

abbrev pub u64_mod : ℕ
u64_mod = 2 ^ 64

abbrev pub u128_mod : ℕ
u128_mod = 2 ^ 128

-- `value as u64`
abbrev pub u64 : ℕ → ℕ
u64 n = n % u64_mod

-- `value as u128`
abbrev pub u128 : ℕ → ℕ
u128 n = n % u128_mod

-- A `u64` difference: the modulus is added first, since `-` on ℕ stops at 0.
abbrev pub sub_u64 : ℕ → ℕ → ℕ
sub_u64 a b = u64 (a + u64_mod - b)

abbrev pub sub_u128 : ℕ → ℕ → ℕ
sub_u128 a b = u128 (a + u128_mod - b)

abbrev pub IsU64 : ℕ → Type 0
IsU64 n = n < u64_mod

abbrev pub IsU128 : ℕ → Type 0
IsU128 n = n < u128_mod

-- The product of two words leaves room for one more word, and for two.
pub word-mul_carry : (a b c : ℕ) → IsU64 a → IsU64 b → IsU64 c → (a * b + c) / u64_mod < u64_mod
word-mul_carry a b c h k l =
    let top : a * b ≤ (u64_mod - 1) * (u64_mod - 1) =
      mul-le-mul {n₂ = u64_mod - 1} {m₂ = u64_mod - 1} (omega arith) (omega arith) in
    omega arith

pub word-mul_fits : (a b c d : ℕ) → IsU64 a → IsU64 b → IsU64 c → IsU64 d → a * b + c + d < u128_mod
word-mul_fits a b c d h k l e =
    let top : a * b ≤ (u64_mod - 1) * (u64_mod - 1) =
      mul-le-mul {n₂ = u64_mod - 1} {m₂ = u64_mod - 1} (omega arith) (omega arith) in
    omega arith
