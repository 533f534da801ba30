-- ===== src/Multiparty/Vss/Combining.antt =====
-- The sums that an accumulator collects open the combination of the commitments.
use phantom_fhe.Base.{
  suc, ◌≡◌, refl, sym, ap, ap₂, ◌∙◌, List, [], ◌∷◌, ◌++◌, ok, some, ok_or, >>=-eq-ok, ok_or-eq-ok,
  ok_inj, length, length-append, length-replicate, replicate, arith,
}
use phantom_fhe.Multiparty.Error.{malformed_message}
use phantom_fhe.Multiparty.Vss.{Curve, CompressedPoint, PedersenGenerators, vector_len}
use phantom_fhe.Multiparty.Vss.Commitments.{decompress_all, add_commitments}
use phantom_fhe.Multiparty.Vss.Accumulator.{add_values}
use phantom_fhe.Multiparty.Vss.Laws.{CurveLaws, exchange, multiscalar-zeros}
use phantom_fhe.Multiparty.Vss.Honest.{base, length-base, replicate-append}
use phantom_fhe.Multiparty.Vss.Opening.{horner_points, Opens}

module _ (c : Curve) where
  open c use {Scalar, Point, plus, plus_points}

  pub length-add_values : (u v : List Scalar) → length (add_values c u v) ≡ length u
  unfolding add_values
  length-add_values [] v = refl
  length-add_values (s ∷ u) [] = refl
  length-add_values (s ∷ u) (t ∷ v) = ap suc (length-add_values u v)

  add_values-append :
      (u v : List Scalar) (a b : Scalar)
      → length u ≡ length v
      → add_values c u v ++ (plus a b ∷ []) ≡ add_values c (u ++ (a ∷ [])) (v ++ (b ∷ []))
  unfolding add_values
  add_values-append [] [] a b e = refl
  add_values-append [] (t ∷ v) a b e = absurd (omega arith)
  add_values-append (s ∷ u) [] a b e = absurd (omega arith)
  add_values-append (s ∷ u) (t ∷ v) a b e =
      ap (◌∷◌ (plus s t)) (add_values-append u v a b (omega arith))

  -- Point by point.
  abbrev pub add_points : List Point → List Point → List Point
  add_points [] qs = []
  add_points (p ∷ ps) [] = p ∷ ps
  add_points (p ∷ ps) (q ∷ qs) = plus_points p q ∷ add_points ps qs

  pub length-add_points : (ps qs : List Point) → length (add_points ps qs) ≡ length ps
  length-add_points [] qs = refl
  length-add_points (p ∷ ps) [] = refl
  length-add_points (p ∷ ps) (q ∷ qs) = ap suc (length-add_points ps qs)

  decompress_all-cons :
      (commitment : CompressedPoint) (cs : List CompressedPoint) (ps : List Point)
      → decompress_all c (commitment ∷ cs) ≡ ok ps
      → (p : Point) × (rest : List Point) × (c.decompress commitment ≡ some p)
        × (decompress_all c cs ≡ ok rest)
        × (p ∷ rest ≡ ps)
  unfolding decompress_all
  decompress_all-cons commitment cs ps e =
      let (p, first, h) = >>=-eq-ok (ok_or (c.decompress commitment) malformed_message) _ e in
      let (rest, others, k) = >>=-eq-ok (decompress_all c cs) _ h in
      (p, rest, ok_or-eq-ok (c.decompress commitment) malformed_message first, others, ok_inj k)

  pub decompress_all-length :
      (cs : List CompressedPoint) (ps : List Point)
      → decompress_all c cs ≡ ok ps
      → length ps ≡ length cs
  unfolding decompress_all
  decompress_all-length [] ps e = ap length (sym (ok_inj e))
  decompress_all-length (commitment ∷ cs) ps e =
      let (p, rest, first, others, k) = decompress_all-cons commitment cs ps e in
      ap length (sym k) ∙ ap suc (decompress_all-length cs rest others)

  pub add_commitments_lem :
      (ps qs : List Point) (cs : List CompressedPoint)
      → length ps ≡ length cs
      → decompress_all c cs ≡ ok qs
      → add_commitments c ps cs ≡ ok (add_points ps qs)
  unfolding decompress_all add_commitments
  add_commitments_lem [] qs cs l e = refl
  add_commitments_lem (p ∷ ps) qs [] l e = absurd (omega arith)
  add_commitments_lem (p ∷ ps) qs (commitment ∷ cs) l e =
      let (q, rest, first, others, k) = decompress_all-cons commitment cs qs e in
      rw (first, add_commitments_lem ps rest cs (omega arith) others, sym k) refl

module _ (c : Curve) (laws : CurveLaws c) where
  open c use {Scalar, Point, plus, plus_points, multiscalar_mul}
  open laws use {scale, identity}

  multiscalar-add_values :
      (u v : List Scalar) (ps : List Point)
      → length u ≡ length ps
      → length v ≡ length ps
      → multiscalar_mul (add_values c u v) ps
        ≡ plus_points (multiscalar_mul u ps) (multiscalar_mul v ps)
  unfolding add_values
  multiscalar-add_values [] [] [] e k =
      sym (laws.points_identity (multiscalar_mul [] []))
      ∙ ap (λ t. plus_points t (multiscalar_mul [] [])) (sym laws.multiscalar_nil)
  multiscalar-add_values [] v (p ∷ ps) e k = absurd (omega arith)
  multiscalar-add_values [] (t ∷ v) [] e k = absurd (omega arith)
  multiscalar-add_values (s ∷ u) v [] e k = absurd (omega arith)
  multiscalar-add_values (s ∷ u) [] (p ∷ ps) e k = absurd (omega arith)
  multiscalar-add_values (s ∷ u) (t ∷ v) (p ∷ ps) e k =
      laws.multiscalar_cons (plus s t) p (add_values c u v) ps
      ∙ ap₂ plus_points (laws.scale_plus s t p)
          (multiscalar-add_values u v ps (omega arith) (omega arith))
      ∙ exchange c laws (scale s p) (scale t p) (multiscalar_mul u ps) (multiscalar_mul v ps)
      ∙ ap₂ plus_points (sym (laws.multiscalar_cons s p u ps))
          (sym (laws.multiscalar_cons t p v ps))

  horner_points-add_points :
      (x : Scalar) (ps qs : List Point)
      → length ps ≡ length qs
      → horner_points c laws x (add_points c ps qs)
        ≡ plus_points (horner_points c laws x ps) (horner_points c laws x qs)
  horner_points-add_points x [] [] e = sym (laws.points_identity identity)
  horner_points-add_points x [] (q ∷ qs) e = absurd (omega arith)
  horner_points-add_points x (p ∷ ps) [] e = absurd (omega arith)
  horner_points-add_points x (p ∷ ps) (q ∷ qs) e =
      ap (plus_points (plus_points p q)) (
        ap (scale x) (horner_points-add_points x ps qs (omega arith))
        ∙ laws.scale_points x (horner_points c laws x ps) (horner_points c laws x qs))
      ∙ exchange c laws p q (scale x (horner_points c laws x ps))
          (scale x (horner_points c laws x qs))

  module _ (generators : PedersenGenerators Point) where
    pub add_values-Opens :
        (x : Scalar) (u v : List Scalar) (a b : Scalar) (ps qs : List Point)
        → length u ≡ vector_len generators
        → length v ≡ vector_len generators
        → length ps ≡ length qs
        → Opens c laws x u a generators ps
        → Opens c laws x v b generators qs
        → Opens c laws x (add_values c u v) (plus a b) generators (add_points c ps qs)
    add_values-Opens x u v a b ps qs l m e h k =
        ap (λ ss. multiscalar_mul ss (base c laws generators))
          (add_values-append c u v a b (omega (arith, l, m)))
        ∙ multiscalar-add_values (u ++ (a ∷ [])) (v ++ (b ∷ [])) (base c laws generators)
            (omega (arith, length-append u (a ∷ []), l, length-base c laws generators))
            (omega (arith, length-append v (b ∷ []), m, length-base c laws generators))
        ∙ ap₂ plus_points h k
        ∙ sym (horner_points-add_points x ps qs e)

    -- The first share opens its own commitments after it is added to nothing.
    pub zeros-Opens :
        (x : Scalar) (v : List Scalar) (b : Scalar) (ps : List Point)
        → length v ≡ vector_len generators
        → Opens c laws x v b generators ps
        → Opens c laws x
            (add_values c (replicate (vector_len generators) c.zero) v)
            (plus c.zero b)
            generators
            ps
    zeros-Opens x v b ps l h =
        let n = vector_len generators in
        let zeros = replicate n c.zero in
        ap (λ ss. multiscalar_mul ss (base c laws generators))
          (add_values-append c zeros v c.zero b (omega (arith, l, length-replicate n c.zero)))
        ∙ multiscalar-add_values (zeros ++ (c.zero ∷ [])) (v ++ (b ∷ [])) (base c laws generators)
            (omega (
              arith,
              length-append zeros (c.zero ∷ []),
              length-replicate n c.zero,
              length-base c laws generators,
            ))
            (omega (arith, length-append v (b ∷ []), l, length-base c laws generators))
        ∙ ap₂ plus_points
            (ap (λ ss. multiscalar_mul ss (base c laws generators)) (replicate-append c.zero n)
              ∙ multiscalar-zeros c laws (suc n) (base c laws generators)
                  (length-base c laws generators))
            h
        ∙ laws.points_identity (horner_points c laws x ps)
