-- ===== src/Schemes/Error.antt =====
-- crates/phantom-schemes/src/error.rs. A message of `InvalidParameters` is a constructor; the
-- errors of the lattice crate do not arise in what is modelled.
use phantom_fhe.Base.{Result, ok, err, panic}
use phantom_fhe.Ring.Error.{RingError}
use phantom_fhe.Utils.Error.{UtilsError}

pub data InvalidParameter : Type 0 where
  plaintext_modulus_not_above_one plaintext_modulus_too_large : InvalidParameter
  ring_without_moduli scale_not_positive level_too_high : InvalidParameter
  missing_degree missing_plaintext_modulus missing_moduli : InvalidParameter
  repeated_moduli common_factor not_128_bit_secure : InvalidParameter
  invalid_boolean invalid_shape non_finite_slot non_finite_float size_overflow : InvalidParameter
  plaintext_without_poly ciphertext_without_poly : InvalidParameter

pub data SchemesError : Type 0 where
  invalid_parameters : InvalidParameter → SchemesError
  ring_error : RingError → SchemesError
  utils_error : UtilsError → SchemesError

-- `?` on a result of the ring crate.
abbrev pub lift_ring {ℓ} : {A : Type ℓ} → Result RingError A → Result SchemesError A
lift_ring (ok a) = ok a
lift_ring (err e) = err (ring_error e)
lift_ring panic = panic

-- `?` on a result of the utilities.
abbrev pub lift_utils {ℓ} : {A : Type ℓ} → Result UtilsError A → Result SchemesError A
lift_utils (ok a) = ok a
lift_utils (err e) = err (utils_error e)
lift_utils panic = panic
