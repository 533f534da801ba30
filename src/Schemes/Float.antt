-- ===== src/Schemes/Float.antt =====
-- `f64` as its 64 bits, which is how the byte forms write it, with the scale and the precision of
-- crates/phantom-schemes/src/ckks on it.
use phantom_fhe.Base.{ℕ, ◌/◌, ◌%◌, ◌^◌, Bool, not, ◌||◌, ◌==◌, Result, ok, err, if◌then◌else◌}
use phantom_fhe.Schemes.Error.{SchemesError, invalid_parameters, scale_not_positive}

-- `f64::is_finite`: the eleven bits of the exponent are not all set.
unfoldable pub is_finite : ℕ → Bool
is_finite bits = not (bits / 2 ^ 52 % 2 ^ 11 == 2047)

-- `value <= 0.0` of a finite value: its sign is set, or it is zero.
unfoldable pub is_not_positive : ℕ → Bool
is_not_positive bits = not (bits / 2 ^ 63 == 0) || bits == 0

pub record Scale : Type 0 where
  pub value : ℕ

unfoldable pub scale_new : ℕ → Result SchemesError Scale
unfolding is_finite is_not_positive
scale_new value =
    if not (is_finite value) || is_not_positive value
    then err (invalid_parameters scale_not_positive)
    else ok record { value = value }

pub record Precision : Type 0 where
  pub bits : ℕ

unfoldable pub precision_new : ℕ → Precision
precision_new bits = record { bits = bits }

pub record Complex64 : Type 0 where
  pub re : ℕ
  pub im : ℕ

unfoldable pub complex_new : ℕ → ℕ → Complex64
complex_new re im = record { re = re; im = im }
