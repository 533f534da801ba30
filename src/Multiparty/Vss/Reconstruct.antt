-- ===== src/Multiparty/Vss/Reconstruct.antt =====
-- crates/phantom-multiparty/src/vss/reconstruct.rs
use phantom_fhe.Base.{
  ℕ, suc, List, [], ◌∷◌, Bool, true, not, ◌==◌, ◌&&◌, ltb, if◌then◌else◌, Result, ok, err, ◌>>=◌,
  ◌>>◌, guard, ok_or, length, get_elem?, replicate, ◌+◌,
}
use phantom_fhe.Base.Signed.{ℤ}
use phantom_fhe.Multiparty.Error.{
  MultipartyError, invalid_parameters, duplicate_participant, threshold_not_met, missing_share,
}
use phantom_fhe.Multiparty.Participant.{ParticipantId}
use phantom_fhe.Multiparty.Vss.{Curve}
use phantom_fhe.Multiparty.Vss.Embed.{recover_centered}

unfoldable pub same_lengths : {S : Type 0} → ℕ → List (ParticipantId × List S) → Bool
same_lengths n [] = true
same_lengths n ((participant, values) ∷ shares) = length values == n && same_lengths n shares

module _ (c : Curve) where
  open c use {Scalar, zero, one, plus, times, minus, negate, invert, scalar_eq, scalar_from}

  -- The loop over the points from index `j` on, with the numerator and the denominator so far.
  unfoldable pub lagrange_products :
      ℕ → Scalar → ℕ → List Scalar → Scalar → Scalar → Result MultipartyError (Scalar × Scalar)
  lagrange_products index xi j [] numerator denominator = ok (numerator, denominator)
  lagrange_products index xi j (xj ∷ points) numerator denominator =
      if j == index
      then lagrange_products index xi (j + 1) points numerator denominator
      else if scalar_eq (minus xi xj) zero
      then err duplicate_participant
      else lagrange_products index xi (j + 1) points (times numerator (negate xj))
          (times denominator (minus xi xj))

  unfoldable pub lagrange_coefficient_at_zero : ℕ → List Scalar → Result MultipartyError Scalar
  lagrange_coefficient_at_zero index evaluation_points = do
    xi ← ok_or (get_elem? evaluation_points index) invalid_parameters
    (numerator, denominator) ← lagrange_products index xi 0 evaluation_points one one
    ok (times numerator (invert denominator))

  -- The coefficients of the `n` indices from `index` on.
  unfoldable pub lagrange_coefficients : ℕ → ℕ → List Scalar → Result MultipartyError (List Scalar)
  lagrange_coefficients ℕ.zero index points = ok []
  lagrange_coefficients (suc n) index points = do
    coefficient ← lagrange_coefficient_at_zero index points
    rest ← lagrange_coefficients n (index + 1) points
    ok (coefficient ∷ rest)

  unfoldable pub add_scaled : List Scalar → Scalar → List Scalar → List Scalar
  add_scaled [] coefficient values = []
  add_scaled (accumulated ∷ result) coefficient [] = accumulated ∷ result
  add_scaled (accumulated ∷ result) coefficient (value ∷ values) =
      plus accumulated (times coefficient value) ∷ add_scaled result coefficient values

  unfoldable pub weighted_sum :
      List Scalar → List (ParticipantId × List Scalar) → List Scalar → List Scalar
  weighted_sum result [] coefficients = result
  weighted_sum result (share ∷ shares) [] = result
  weighted_sum result ((participant, values) ∷ shares) (coefficient ∷ coefficients) =
      weighted_sum (add_scaled result coefficient values) shares coefficients

  unfoldable pub recover_all : List Scalar → ℤ → Result MultipartyError (List ℤ)
  recover_all [] magnitude_bound = ok []
  recover_all (scalar ∷ scalars) magnitude_bound = do
    value ← recover_centered c scalar magnitude_bound
    values ← recover_all scalars magnitude_bound
    ok (value ∷ values)

  unfoldable pub evaluation_points : List (ParticipantId × List Scalar) → List Scalar
  evaluation_points [] = []
  evaluation_points ((participant, values) ∷ shares) =
      scalar_from participant ∷ evaluation_points shares

  unfoldable pub reconstruct_secret :
      List (ParticipantId × List Scalar) → ℕ → ℤ → Result MultipartyError (List ℤ)
  reconstruct_secret shares threshold magnitude_bound = do
    guard (not (ltb (length shares) threshold)) threshold_not_met
    first ← ok_or (get_elem? shares 0) missing_share
    guard (same_lengths (length first.1) shares) invalid_parameters
    coefficients ← lagrange_coefficients (length shares) 0 (evaluation_points shares)
    recover_all (weighted_sum (replicate (length first.1) zero) shares coefficients) magnitude_bound
