-- ===== src/Utils/Error.antt =====
-- crates/phantom-utils/src/error.rs
use phantom_fhe.Base.{ℕ, List}

-- `io` is `std::io::Error`: the end of the input is the only one of a slice.
pub data UtilsError : Type 0 where
  io : UtilsError
  invalid_domain_length : (actual : ℕ) → UtilsError
  invalid_domain : (expected found : List ℕ) → UtilsError
  unsupported_version : (expected found : ℕ) → UtilsError
  length_overflow : (len : ℕ) → UtilsError
