-- ===== src/Multiparty/Vss/Polynomial.antt =====
-- crates/phantom-multiparty/src/vss/polynomial.rs
use phantom_fhe.Base.{
  ℕ, suc, ◌-◌, List, [], ◌∷◌, ◌++◌, not, ◌==◌, Result, ok, ◌>>=◌, ◌>>◌, guard, length, get_or,
  replicate,
}
use phantom_fhe.Base.Signed.{ℤ}
use phantom_fhe.Multiparty.Error.{MultipartyError, invalid_parameters}
use phantom_fhe.Multiparty.Participant.{ParticipantId}
use phantom_fhe.Multiparty.Vss.{Curve, CompressedPoint, PedersenGenerators, vector_len}
use phantom_fhe.Multiparty.Vss.Commitments.{VssCommitmentSet}
use phantom_fhe.Multiparty.Vss.Embed.{embed_centered}
use phantom_fhe.Multiparty.Vss.Share.{VssShare}

pub record VectorPolynomial (S : Type 0) : Type 0 where
  pub dealer : ParticipantId
  pub coefficient_vectors : List (List S)
  pub blinding_coefficients : List S

unfoldable pub polynomial_threshold : {S : Type 0} → VectorPolynomial S → ℕ
polynomial_threshold polynomial = length polynomial.coefficient_vectors

-- Indexing an empty list panics in the source; `sample` gives at least one vector.
unfoldable pub polynomial_vector_len : {S : Type 0} → VectorPolynomial S → ℕ
polynomial_vector_len polynomial = length (get_or polynomial.coefficient_vectors 0 [])

module _ (c : Curve) where
  open c use {Scalar, Point, zero, plus, times, scalar_from, multiscalar_mul, compress}

  unfoldable pub embed_all : List ℤ → Result MultipartyError (List Scalar)
  embed_all [] = ok []
  embed_all (v ∷ vs) = do scalar ← embed_centered c v; scalars ← embed_all vs; ok (scalar ∷ scalars)

  -- A source of randomness is a state with a draw.
  module _ {R : Type 0} (random : R → Scalar × R) where
    unfoldable pub random_vector : ℕ → R → List Scalar × R
    random_vector ℕ.zero rng = ([], rng)
    random_vector (suc n) rng =
        let (scalar, next) = random rng in
        let (scalars, last) = random_vector n next in (scalar ∷ scalars, last)

    unfoldable pub random_vectors : ℕ → ℕ → R → List (List Scalar) × R
    random_vectors ℕ.zero vector_len rng = ([], rng)
    random_vectors (suc n) vector_len rng =
        let (vector, next) = random_vector vector_len rng in
        let (vectors, last) = random_vectors n vector_len next in (vector ∷ vectors, last)

    unfoldable pub sample :
        R → ParticipantId → List ℤ → ℕ → Result MultipartyError (VectorPolynomial Scalar × R)
    sample rng dealer secret threshold = do
      guard (not (threshold == 0)) invalid_parameters
      guard (not (length secret == 0)) invalid_parameters
      degree_zero ← embed_all secret
      let (vectors, next) = random_vectors (threshold - 1) (length secret) rng
      let (blinding, last) = random_vector threshold next
      ok (
        record {
          dealer = dealer;
          coefficient_vectors = degree_zero ∷ vectors;
          blinding_coefficients = blinding;
        },
        last,
      )

  -- `for (fj, cj) in f.iter_mut().zip(coefficients) { *fj = *fj * x + cj; }`
  unfoldable pub horner_step : Scalar → List Scalar → List Scalar → List Scalar
  horner_step x [] coefficients = []
  horner_step x (fj ∷ f) [] = fj ∷ f
  horner_step x (fj ∷ f) (cj ∷ coefficients) = plus (times fj x) cj ∷ horner_step x f coefficients

  -- The loops from the last coefficient down.
  unfoldable pub evaluate_vectors : Scalar → ℕ → List (List Scalar) → List Scalar
  evaluate_vectors x n [] = replicate n zero
  evaluate_vectors x n (coefficients ∷ rest) =
      horner_step x (evaluate_vectors x n rest) coefficients

  unfoldable pub evaluate_blinding : Scalar → List Scalar → Scalar
  evaluate_blinding x [] = zero
  evaluate_blinding x (r ∷ rest) = plus (times (evaluate_blinding x rest) x) r

  unfoldable pub evaluate : VectorPolynomial Scalar → Scalar → List Scalar × Scalar
  evaluate polynomial x = (
    evaluate_vectors x (polynomial_vector_len polynomial) polynomial.coefficient_vectors,
    evaluate_blinding x polynomial.blinding_coefficients,
  )

  unfoldable pub create_share : VectorPolynomial Scalar → ParticipantId → VssShare Scalar
  create_share polynomial recipient =
      let (values, blinding) = evaluate polynomial (scalar_from recipient) in
      record {
        dealer = polynomial.dealer;
        recipient = recipient;
        values = values;
        blinding = blinding;
      }

  unfoldable pub commit_degrees :
      PedersenGenerators Point → List (List Scalar) → List Scalar → List CompressedPoint
  commit_degrees generators [] blinding = []
  commit_degrees generators (coefficients ∷ rest) [] = []
  commit_degrees generators (coefficients ∷ rest) (r ∷ blinding) =
      compress (multiscalar_mul (coefficients ++ (r ∷ [])) (generators.g ++ (generators.h ∷ [])))
      ∷ commit_degrees generators rest blinding

  unfoldable pub commit :
      VectorPolynomial Scalar → PedersenGenerators Point → Result MultipartyError VssCommitmentSet
  commit polynomial generators = do
    guard (vector_len generators == polynomial_vector_len polynomial) invalid_parameters
    ok record {
      dealer = polynomial.dealer;
      commitments =
          commit_degrees generators polynomial.coefficient_vectors polynomial.blinding_coefficients;
    }
