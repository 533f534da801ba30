-- ===== src/Multiparty/Vss/Honest.antt =====
-- The shares of a sampled polynomial pass verification against its own commitments.
use phantom_fhe.Base.{
  ℕ, zero, suc, ◌≡◌, refl, sym, ap, ap₂, ◌∙◌, ◌≢◌, List, [], ◌∷◌, ◌++◌, ==_refl, ok, length,
  length-append, length-replicate, replicate, get_or, All, arith,
}
use phantom_fhe.Multiparty.Participant.{ParticipantId}
use phantom_fhe.Multiparty.Vss.{Curve, PedersenGenerators, vector_len}
use phantom_fhe.Multiparty.Vss.Commitments.{VssCommitmentSet, decompress_all}
use phantom_fhe.Multiparty.Vss.Share.{verify}
use phantom_fhe.Multiparty.Vss.Polynomial.{
  VectorPolynomial, polynomial_vector_len, horner_step, evaluate_vectors, evaluate_blinding,
  evaluate, create_share, commit_degrees, commit,
}
use phantom_fhe.Multiparty.Vss.Laws.{CurveLaws, exchange, multiscalar-zeros}
use phantom_fhe.Multiparty.Vss.Opening.{Opens, verify_equation_complete}

pub replicate-append :
    {A : Type 0} (a : A) (n : ℕ) → replicate n a ++ (a ∷ []) ≡ replicate (suc n) a
replicate-append a zero = refl
replicate-append a (suc n) = ap (◌∷◌ a) (replicate-append a n)

module _ (c : Curve) where
  open c use {Scalar, Point, plus, times, multiscalar_mul}

  length-horner_step : (x : Scalar) (f cs : List Scalar) → length (horner_step c x f cs) ≡ length f
  unfolding horner_step
  length-horner_step x [] cs = refl
  length-horner_step x (fj ∷ f) [] = refl
  length-horner_step x (fj ∷ f) (cj ∷ cs) = ap suc (length-horner_step x f cs)

  length-evaluate_vectors :
      (x : Scalar) (n : ℕ) (vs : List (List Scalar)) → length (evaluate_vectors c x n vs) ≡ n
  unfolding evaluate_vectors
  length-evaluate_vectors x n [] = length-replicate n _
  length-evaluate_vectors x n (v ∷ vs) =
      length-horner_step x (evaluate_vectors c x n vs) v ∙ length-evaluate_vectors x n vs

  horner_step-append :
      (x : Scalar) (f cs : List Scalar) (rho r : Scalar)
      → length f ≡ length cs
      → horner_step c x f cs ++ (plus (times rho x) r ∷ [])
        ≡ horner_step c x (f ++ (rho ∷ [])) (cs ++ (r ∷ []))
  unfolding horner_step
  horner_step-append x [] [] rho r e = refl
  horner_step-append x [] (cj ∷ cs) rho r e = absurd (omega arith)
  horner_step-append x (fj ∷ f) [] rho r e = absurd (omega arith)
  horner_step-append x (fj ∷ f) (cj ∷ cs) rho r e =
      ap (◌∷◌ (plus (times fj x) cj)) (horner_step-append x f cs rho r (omega arith))

  -- The commitments of the degrees before compression.
  abbrev degree_points : List Point → List (List Scalar) → List Scalar → List Point
  degree_points base [] rs = []
  degree_points base (v ∷ vs) [] = []
  degree_points base (v ∷ vs) (r ∷ rs) =
      multiscalar_mul (v ++ (r ∷ [])) base ∷ degree_points base vs rs

  -- One coefficient vector for each blinding, all of one length.
  pub record IsPolynomial (n : ℕ) (vs : List (List Scalar)) (rs : List Scalar) : Type 0 where
    pub vectors : All (λ v. length v ≡ n) vs
    pub blindings : length rs ≡ length vs

  first-length :
      (n : ℕ) (vs : List (List Scalar))
      → All (λ v. length v ≡ n) vs
      → length vs ≢ 0
      → length (get_or vs 0 []) ≡ n
  first-length n [] h ne = absurd (ne refl)
  first-length n (v ∷ vs) h ne = h.0

  polynomial_vector_len-eq :
      {n : ℕ} (polynomial : VectorPolynomial Scalar)
      → IsPolynomial n polynomial.coefficient_vectors polynomial.blinding_coefficients
      → length polynomial.coefficient_vectors ≢ 0
      → polynomial_vector_len polynomial ≡ n
  unfolding polynomial_vector_len
  polynomial_vector_len-eq polynomial h ne =
      first-length _ polynomial.coefficient_vectors h.vectors ne

module _ (c : Curve) (laws : CurveLaws c) where
  open c use {Scalar, Point, plus, times, plus_points, multiscalar_mul}
  open laws use {scale, identity}

  multiscalar-horner_step :
      (x : Scalar) (f cs : List Scalar) (ps : List Point)
      → length f ≡ length ps
      → length cs ≡ length ps
      → multiscalar_mul (horner_step c x f cs) ps
        ≡ plus_points (scale x (multiscalar_mul f ps)) (multiscalar_mul cs ps)
  unfolding horner_step
  multiscalar-horner_step x [] [] [] e k =
      sym (laws.points_identity _)
      ∙ ap₂ plus_points (sym (laws.scale_identity x) ∙ ap (scale x) (sym laws.multiscalar_nil)) refl
  multiscalar-horner_step x [] cs (p ∷ ps) e k = absurd (omega arith)
  multiscalar-horner_step x [] (cj ∷ cs) [] e k = absurd (omega arith)
  multiscalar-horner_step x (fj ∷ f) cs [] e k = absurd (omega arith)
  multiscalar-horner_step x (fj ∷ f) [] (p ∷ ps) e k = absurd (omega arith)
  multiscalar-horner_step x (fj ∷ f) (cj ∷ cs) (p ∷ ps) e k =
      laws.multiscalar_cons (plus (times fj x) cj) p (horner_step c x f cs) ps
      ∙ ap₂ plus_points
          (laws.scale_plus (times fj x) cj p
            ∙ ap (λ t. plus_points t (scale cj p))
                (ap (λ t. scale t p) (laws.times_comm fj x) ∙ laws.scale_times x fj p))
          (multiscalar-horner_step x f cs ps (omega arith) (omega arith))
      ∙ exchange c laws (scale x (scale fj p)) (scale cj p) (scale x (multiscalar_mul f ps))
          (multiscalar_mul cs ps)
      ∙ ap₂ plus_points
          (sym (laws.scale_points x (scale fj p) (multiscalar_mul f ps))
            ∙ ap (scale x) (sym (laws.multiscalar_cons fj p f ps)))
          (sym (laws.multiscalar_cons cj p cs ps))

  module _ (generators : PedersenGenerators Point) where
    abbrev pub base : List Point
    base = generators.g ++ (generators.h ∷ [])

    pub length-base : length base ≡ suc (vector_len generators)
    unfolding vector_len
    length-base = omega (arith, length-append generators.g (generators.h ∷ []))

    evaluate-Opens :
        (x : Scalar) (vs : List (List Scalar)) (rs : List Scalar)
        → IsPolynomial c (vector_len generators) vs rs
        → Opens c laws x
            (evaluate_vectors c x (vector_len generators) vs)
            (evaluate_blinding c x rs)
            generators
            (degree_points c base vs rs)
    unfolding evaluate_vectors evaluate_blinding
    evaluate-Opens x [] [] h =
        ap (λ ss. multiscalar_mul ss base) (replicate-append c.zero (vector_len generators))
        ∙ multiscalar-zeros c laws (suc (vector_len generators)) base length-base
    evaluate-Opens x [] (r ∷ rs) h = absurd (omega (arith, h.blindings))
    evaluate-Opens x (v ∷ vs) [] h = absurd (omega (arith, h.blindings))
    evaluate-Opens x (v ∷ vs) (r ∷ rs) h =
        let f = evaluate_vectors c x (vector_len generators) vs in
        let rho = evaluate_blinding c x rs in
        let size = length-evaluate_vectors c x (vector_len generators) vs in
        ap (λ ss. multiscalar_mul ss base)
          (horner_step-append c x f v rho r (omega (arith, size, h.vectors.0)))
        ∙ multiscalar-horner_step x (f ++ (rho ∷ [])) (v ++ (r ∷ [])) base
            (omega (arith, length-append f (rho ∷ []), size, length-base))
            (omega (arith, length-append v (r ∷ []), h.vectors.0, length-base))
        ∙ laws.points_comm _ _
        ∙ ap (λ t. plus_points (multiscalar_mul (v ++ (r ∷ [])) base) (scale x t))
            (evaluate-Opens x vs rs
              (record { vectors = h.vectors.1; blindings = omega (arith, h.blindings) }))

    commit_degrees-decompress :
        (vs : List (List Scalar)) (rs : List Scalar)
        → decompress_all c (commit_degrees c generators vs rs) ≡ ok (degree_points c base vs rs)
    unfolding commit_degrees decompress_all
    commit_degrees-decompress [] rs = refl
    commit_degrees-decompress (v ∷ vs) [] = refl
    commit_degrees-decompress (v ∷ vs) (r ∷ rs) =
        rw
          (
            laws.decompress_compress (multiscalar_mul (v ++ (r ∷ [])) base),
            commit_degrees-decompress vs rs,
          )
          refl

    commit_degrees-nonempty :
        (vs : List (List Scalar)) (rs : List Scalar)
        → IsPolynomial c (vector_len generators) vs rs
        → length vs ≢ 0
        → length (commit_degrees c generators vs rs) ≢ 0
    unfolding commit_degrees
    commit_degrees-nonempty [] rs h ne = ne
    commit_degrees-nonempty (v ∷ vs) [] h ne = absurd (omega (arith, h.blindings))
    commit_degrees-nonempty (v ∷ vs) (r ∷ rs) h ne = λ z. omega (arith, z)

    -- Every share of a polynomial verifies against its commitments.
    pub create_share-verify :
        (polynomial : VectorPolynomial Scalar)
        → IsPolynomial c
            (vector_len generators)
            polynomial.coefficient_vectors
            polynomial.blinding_coefficients
        → length polynomial.coefficient_vectors ≢ 0
        → (set : VssCommitmentSet) × (commit c polynomial generators ≡ ok set)
          × ((recipient : ParticipantId)
              → verify c (create_share c polynomial recipient) set generators ≡ ok tt)
    unfolding commit verify create_share evaluate
    create_share-verify polynomial h ne =
        let size = polynomial_vector_len-eq c polynomial h ne in
        let set : VssCommitmentSet = record {
          dealer = polynomial.dealer;
          commitments =
              commit_degrees c generators polynomial.coefficient_vectors
                polynomial.blinding_coefficients;
        } in
        (
          set,
          rw (size, ==_refl (vector_len generators)) refl,
          λ recipient.
              let x = c.scalar_from recipient in
              rw (size, ==_refl polynomial.dealer)
                (verify_equation_complete c laws x _ _ set.commitments generators (record {
                  points =
                      degree_points c base polynomial.coefficient_vectors
                        polynomial.blinding_coefficients;
                  sized = length-evaluate_vectors c x _ polynomial.coefficient_vectors;
                  nonempty = commit_degrees-nonempty _ _ h ne;
                  decompressed = commit_degrees-decompress _ _;
                  opens = evaluate-Opens x _ _ h;
                })),
        )
