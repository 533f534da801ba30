-- ===== src/Multiparty/Vss/Sampling.antt =====
-- A polynomial is sampled for every secret of representable coefficients, and its shares verify.
use phantom_fhe.Base.{
  ℕ, zero, suc, ◌-◌, ◌^◌, ◌<◌, ◌≡◌, refl, sym, subst, ap, List, [], ◌∷◌, not, ◌==◌, true, false, ok,
  length, All, arith,
}
use phantom_fhe.Base.Signed.{ℤ, nat_abs}
use phantom_fhe.Multiparty.Participant.{ParticipantId}
use phantom_fhe.Multiparty.Vss.{Curve, PedersenGenerators, vector_len}
use phantom_fhe.Multiparty.Vss.Embed.{embed_centered, checked_abs, signed_scalar}
use phantom_fhe.Multiparty.Vss.Commitments.{VssCommitmentSet}
use phantom_fhe.Multiparty.Vss.Share.{verify}
use phantom_fhe.Multiparty.Vss.Polynomial.{
  VectorPolynomial, embed_all, random_vector, random_vectors, sample, create_share, commit,
}
use phantom_fhe.Multiparty.Vss.Laws.{CurveLaws}
use phantom_fhe.Multiparty.Vss.Honest.{IsPolynomial, create_share-verify}

-- Not `i128::MIN`, whose magnitude no `i128` has.
abbrev pub HasMagnitude : ℤ → Type 0
HasMagnitude v = nat_abs v < 2 ^ 127

positive_passes : (n : ℕ) → 0 < n → not (n == 0) ≡ true
positive_passes n h = ground (arith, h)

module _ (c : Curve) where
  open c use {Scalar, Point}

  pub embed_centered_lem :
      (v : ℤ) → HasMagnitude v → embed_centered c v ≡ ok (signed_scalar c v (nat_abs v))
  unfolding embed_centered checked_abs
  embed_centered_lem v h =
      let fits : (nat_abs v == 2 ^ 127) ≡ false = ground (arith, h) in rw fits refl

  embed_all_lem :
      (vs : List ℤ)
      → All HasMagnitude vs
      → (ss : List Scalar) × (embed_all c vs ≡ ok ss) × (length ss ≡ length vs)
  unfolding embed_all
  embed_all_lem [] h = ([], refl, refl)
  embed_all_lem (v ∷ vs) h =
      let (ss, e, size) = embed_all_lem vs h.1 in
      (signed_scalar c v (nat_abs v) ∷ ss, rw (embed_centered_lem v h.0, e) refl, ap suc size)

  module _ {R : Type 0} (random : R → Scalar × R) where
    random_vector-length : (n : ℕ) (rng : R) → length (random_vector c random n rng).0 ≡ n
    unfolding random_vector
    random_vector-length zero rng = refl
    random_vector-length (suc n) rng = ap suc (random_vector-length n (random rng).1)

    random_vectors-lengths :
        (n len : ℕ) (rng : R)
        → All (λ v. length v ≡ len) (random_vectors c random n len rng).0
          × (length (random_vectors c random n len rng).0 ≡ n)
    unfolding random_vectors
    random_vectors-lengths zero len rng = (tt, refl)
    random_vectors-lengths (suc n) len rng =
        let (all, size) = random_vectors-lengths n len (random_vector c random len rng).1 in
        ((random_vector-length len rng, all), ap suc size)

    pub sample-IsPolynomial :
        (rng : R) (dealer : ParticipantId) (secret : List ℤ) (threshold : ℕ)
        → 0 < threshold
        → 0 < length secret
        → All HasMagnitude secret
        → (polynomial : VectorPolynomial Scalar) × (last : R) × (sample c random rng dealer secret
              threshold
            ≡ ok (polynomial, last))
          × (polynomial.dealer ≡ dealer)
          × (length polynomial.coefficient_vectors ≡ threshold)
          × IsPolynomial c
              (length secret)
              polynomial.coefficient_vectors
              polynomial.blinding_coefficients
    unfolding sample
    sample-IsPolynomial rng dealer secret threshold t s h =
        let (ss, embedded, size) = embed_all_lem secret h in
        let (all, count) = random_vectors-lengths (threshold - 1) (length secret) rng in
        let (vectors, next) = random_vectors c random (threshold - 1) (length secret) rng in
        let (blinding, last) = random_vector c random threshold next in
        (
          record {
            dealer = dealer;
            coefficient_vectors = ss ∷ vectors;
            blinding_coefficients = blinding;
          },
          last,
          rw (positive_passes threshold t, positive_passes (length secret) s, embedded) refl,
          refl,
          omega (arith, count, t),
          record {
            vectors = (size, all);
            blindings = omega (arith, random_vector-length threshold next, count, t);
          },
        )

  module _ (laws : CurveLaws c) {R : Type 0} (random : R → Scalar × R) where
    -- For a positive threshold, a secret that is not empty and has no `i128::MIN`, and generators
    -- of its length: `sample` gives a polynomial, `commit` gives its commitments, and the share
    -- for any recipient passes `verify` against them.
    pub sample-verify :
        (rng : R) (dealer : ParticipantId) (secret : List ℤ) (threshold : ℕ)
        (generators : PedersenGenerators Point)
        → 0 < threshold
        → 0 < length secret
        → All HasMagnitude secret
        → vector_len generators ≡ length secret
        → (polynomial : VectorPolynomial Scalar) × (last : R) × (set : VssCommitmentSet) × (sample c
              random rng dealer secret threshold
            ≡ ok (polynomial, last))
          × (commit c polynomial generators ≡ ok set)
          × ((recipient : ParticipantId)
              → verify c (create_share c polynomial recipient) set generators ≡ ok tt)
    sample-verify rng dealer secret threshold generators t s h e =
        let (polynomial, last, sampled, owner, degrees, well) =
          sample-IsPolynomial random rng dealer secret threshold t s h in
        let (set, committed, verified) =
          create_share-verify c laws generators polynomial
            (subst
              (λ (n : ℕ).
                IsPolynomial c n polynomial.coefficient_vectors polynomial.blinding_coefficients)
              (sym e) well)
            (λ z. omega (arith, z, degrees)) in
        (polynomial, last, set, sampled, committed, verified)
