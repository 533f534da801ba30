-- ===== src/Multiparty/Vss/Embed.antt =====
-- crates/phantom-multiparty/src/vss/scalar_embed.rs
use phantom_fhe.Base.{
  ℕ, ◌^◌, List, [], ◌∷◌, Bool, false, not, ◌||◌, ◌==◌, leb, Option, none, some, Result, ok, err,
  ◌>>=◌, ok_or, if◌then◌else◌, take, drop,
}
use phantom_fhe.Base.Bytes.{from_le_bytes}
use phantom_fhe.Base.Signed.{ℤ, pos, negsuc, nat_abs, opposite, to_i128}
use phantom_fhe.Multiparty.Error.{MultipartyError, invalid_parameters}
use phantom_fhe.Multiparty.Vss.{Curve}

-- `i128::checked_abs`
unfoldable pub checked_abs : ℤ → Option ℕ
checked_abs value = if nat_abs value == 2 ^ 127 then none else some (nat_abs value)

-- `u128::try_from` an `i128`.
unfoldable pub to_bound : ℤ → Result MultipartyError ℕ
to_bound (pos n) = ok n
to_bound (negsuc n) = err invalid_parameters

unfoldable pub any_nonzero : List ℕ → Bool
any_nonzero [] = false
any_nonzero (b ∷ bs) = not (b == 0) || any_nonzero bs

module _ (c : Curve) where
  open c use {Scalar, negate, scalar_from, as_bytes}

  unfoldable pub signed_scalar : ℤ → ℕ → Scalar
  signed_scalar (pos n) magnitude = scalar_from magnitude
  signed_scalar (negsuc n) magnitude = negate (scalar_from magnitude)

  unfoldable pub embed_centered : ℤ → Result MultipartyError Scalar
  embed_centered value = do
    magnitude ← ok_or (checked_abs value) invalid_parameters
    ok (signed_scalar value magnitude)

  unfoldable pub small_magnitude : Scalar → Option ℕ
  small_magnitude scalar =
      if any_nonzero (drop 16 (as_bytes scalar))
      then none
      else some (from_le_bytes (take 16 (as_bytes scalar)))

  -- The magnitude of a scalar when it is within the bound.
  unfoldable pub magnitude_within : Scalar → ℕ → Option ℕ
  magnitude_within scalar bound = elim (small_magnitude scalar) [
    | none ↦ none
    | some k ↦ if leb k bound then some k else none
  ]

  unfoldable pub recover_within : Scalar → ℕ → Result MultipartyError ℤ
  recover_within value bound = elim (magnitude_within value bound) [
    | some k ↦ ok (to_i128 k)
    | none ↦ elim (magnitude_within (negate value) bound) [
      | some k ↦ ok (opposite (to_i128 k))
      | none ↦ err invalid_parameters
    ]
  ]

  unfoldable pub recover_centered : Scalar → ℤ → Result MultipartyError ℤ
  recover_centered value magnitude_bound = do
    bound ← to_bound magnitude_bound
    recover_within value bound
