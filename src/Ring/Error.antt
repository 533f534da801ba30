-- ===== src/Ring/Error.antt =====
-- crates/phantom-ring/src/error.rs.
use phantom_fhe.Base.{ℕ}

pub data RingError : Type 0 where
  invalid_degree : ℕ → RingError
  invalid_modulus : ℕ → RingError
  invalid_ntt_modulus : ℕ → ℕ → RingError
  dimension_mismatch : RingError
  level_out_of_bounds : ℕ → ℕ → RingError
  crt_overflow : RingError
  missing_root : ℕ → RingError
  modulus_too_large_for_reducer : ℕ → ℕ → RingError
  modulus_too_small : ℕ → RingError
  invalid_automorphism_element : ℕ → ℕ → RingError
