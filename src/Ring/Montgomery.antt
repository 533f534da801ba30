-- ===== src/Ring/Montgomery.antt =====
-- crates/phantom-ring/src/reduce/montgomery.rs: reduction without division, for R = 2 ^ 64.
pub mod Inverse
pub mod Redc
pub mod Setup
use phantom_fhe.Base.{
  ℕ, zero, suc, ◌+◌, ◌-◌, ◌*◌, ◌/◌, ◌%◌, ◌^◌, Result, ok, err, if◌then◌else◌, leb, ◌==◌, ◌||◌, u64,
  u128, sub_u64,
}
use phantom_fhe.Ring.Error.{RingError, modulus_too_large_for_reducer}
use phantom_fhe.Ring.Reduce.{montgomery_max_modulus}

pub record MontgomeryReducer : Type 0 where
  pub modulus : ℕ
  pub m_prime : ℕ
  pub r2 : ℕ

-- One Newton step for the inverse of `value` modulo 2 ^ 64.
unfoldable pub newton : ℕ → ℕ → ℕ
newton value x = u64 (x * sub_u64 2 (u64 (value * x)))

unfoldable pub newton_rounds : ℕ → ℕ → ℕ → ℕ
newton_rounds zero value x = x
newton_rounds (suc n) value x = newton_rounds n value (newton value x)

unfoldable pub neg_inv_mod_pow2_64 : ℕ → ℕ
unfolding newton_rounds newton
neg_inv_mod_pow2_64 value = sub_u64 0 (newton_rounds 6 value value)

unfoldable pub montgomery_new : ℕ → Result RingError MontgomeryReducer
montgomery_new modulus =
    if modulus == 0 || modulus % 2 == 0 || leb montgomery_max_modulus modulus
    then err (modulus_too_large_for_reducer modulus montgomery_max_modulus)
    else (let r = u64 (2 ^ 64 % modulus) in
        ok (record {
          modulus = modulus;
          m_prime = neg_inv_mod_pow2_64 modulus;
          r2 = u64 (u128 (r * r) % modulus);
        }))

unfoldable pub redc : MontgomeryReducer → ℕ → ℕ
redc r t =
    let u = u64 (u64 t * r.m_prime) in
    let t2 = u128 (t + u * r.modulus) in
    let result = u64 (t2 / 2 ^ 64) in if leb r.modulus result then result - r.modulus else result

unfoldable pub to_montgomery : MontgomeryReducer → ℕ → ℕ
to_montgomery r a = redc r (a * r.r2)

unfoldable pub from_montgomery : MontgomeryReducer → ℕ → ℕ
from_montgomery r a_mont = redc r a_mont

unfoldable pub mul_montgomery : MontgomeryReducer → ℕ → ℕ → ℕ
mul_montgomery r lhs_mont rhs_mont = redc r (lhs_mont * rhs_mont)

unfoldable pub montgomery_mul : MontgomeryReducer → ℕ → ℕ → ℕ
montgomery_mul r lhs rhs =
    from_montgomery r (mul_montgomery r (to_montgomery r lhs) (to_montgomery r rhs))
