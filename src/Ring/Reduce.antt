-- ===== src/Ring/Reduce.antt =====
-- crates/phantom-ring/src/reduce/mod.rs and lazy.rs: arithmetic on residues.
pub mod Range
pub mod Power
use mathlib.Core.WellFounded.{Acc}
use phantom_fhe.Base.{
  ℕ, zero, suc, ◌+◌, ◌-◌, ◌*◌, ◌/◌, ◌%◌, ◌^◌, ◌<◌, if◌then◌else◌, leb, ◌==◌, u64, sub_u64, arith,
}
use phantom_fhe.Base.Order.{lt_wf}

-- Exclusive.
abbrev pub montgomery_max_modulus : ℕ
montgomery_max_modulus = 2 ^ 63

unfoldable pub add_mod : ℕ → ℕ → ℕ → ℕ
add_mod lhs rhs modulus = u64 ((lhs + rhs) % modulus)

unfoldable pub sub_mod : ℕ → ℕ → ℕ → ℕ
sub_mod lhs rhs modulus = if leb rhs lhs then lhs - rhs else sub_u64 modulus (rhs - lhs)

unfoldable pub neg_mod : ℕ → ℕ → ℕ
neg_mod value modulus = if value == 0 then 0 else sub_u64 modulus value

unfoldable pub mul_mod : ℕ → ℕ → ℕ → ℕ
mul_mod lhs rhs modulus = u64 (lhs * rhs % modulus)

half-lt : (e : ℕ) → suc e / 2 < suc e
half-lt e = omega arith

-- The loop of `pow_mod` over its variables: `exp & 1` is `exp % 2` and `exp >>= 1` is `exp / 2`.
unfoldable pub pow_loop : (modulus acc base exp : ℕ) → Acc ◌<◌ exp → ℕ
unfolding half-lt
pow_loop modulus acc base exp (Acc.intro zero _) = acc
pow_loop modulus acc base exp (Acc.intro (suc e) smaller) =
    pow_loop modulus (if suc e % 2 == 1 then mul_mod acc base modulus else acc)
      (mul_mod base base modulus) (suc e / 2) (smaller (suc e / 2) (half-lt e))

unfoldable pub pow_mod : ℕ → ℕ → ℕ → ℕ
unfolding pow_loop lt_wf mul_mod
pow_mod base exp modulus = pow_loop modulus 1 (base % modulus) exp (lt_wf.apply exp)

unfoldable pub inv_mod : ℕ → ℕ → ℕ
inv_mod value modulus = pow_mod value (sub_u64 modulus 2) modulus

unfoldable pub reduce_once : ℕ → ℕ → ℕ
reduce_once value modulus = if leb modulus value then value - modulus else value
