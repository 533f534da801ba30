-- ===== src/Multiparty/Vss/Opening.antt =====
-- The value of a commitment set at a point, and what `verify` accepts.
use phantom_fhe.Base.{
  ℕ, suc, ◌≡◌, refl, sym, ap, ◌↔◌, Option, ◌∙◌, ◌≢◌, List, [], ◌∷◌, ◌++◌, some, none, true, not,
  ◌==◌, ==_iff, ok, err, panic, Result, ok_or, ◌>>=◌, guard-eq-ok, >>=-eq-ok, guard-passed, ok_inj,
  subst, length, arith, Bool-cases, inl, inr,
}
use phantom_fhe.Multiparty.Error.{MultipartyError, malformed_message}
use phantom_fhe.Multiparty.Vss.{Curve, CompressedPoint, PedersenGenerators, vector_len}
use phantom_fhe.Multiparty.Vss.Commitments.{decompress_all}
use phantom_fhe.Multiparty.Vss.Share.{weigh_commitments, verify_equation}
use phantom_fhe.Multiparty.Vss.Laws.{CurveLaws}

module _ (c : Curve) where
  open c use {Scalar, Point, one, times}

  -- Consecutive powers of `x`, times the first.
  abbrev pub powers : Scalar → Scalar → ℕ → List Scalar
  powers x power ℕ.zero = []
  powers x power (suc n) = power ∷ powers x (times power x) n

  abbrev Weighed : Type 0
  Weighed = Result MultipartyError (List Scalar × List Point)

  abbrev weighted : Scalar → Scalar → List Point → Weighed
  weighted x power ps = ok (powers x power (length ps), ps)

  abbrev weigh_first : Scalar → Point → Weighed → Weighed
  weigh_first power p rest = do (scalars, points) ← rest; ok (power ∷ scalars, p ∷ points)

  abbrev add_first :
      Point → Result MultipartyError (List Point) → Result MultipartyError (List Point)
  add_first p rest = do points ← rest; ok (p ∷ points)

  weigh_step :
      (x power : Scalar) (o : Option Point) (r : Result MultipartyError (List Point))
      → (ok_or o malformed_message >>= λ p. weigh_first power p (r >>= weighted x (times power x)))
        ≡ ((ok_or o malformed_message >>= λ p. add_first p r) >>= weighted x power)
  weigh_step x power none r = refl
  weigh_step x power (some p) (ok ps) = refl
  weigh_step x power (some p) (err e) = refl
  weigh_step x power (some p) panic = refl

  weigh_commitments_lem :
      (x power : Scalar) (cs : List CompressedPoint)
      → weigh_commitments c x power cs ≡ (decompress_all c cs >>= weighted x power)
  unfolding weigh_commitments decompress_all
  weigh_commitments_lem x power [] = refl
  weigh_commitments_lem x power (commitment ∷ rest) =
      rw (weigh_commitments_lem x (times power x) rest)
        (weigh_step x power (c.decompress commitment) (decompress_all c rest))

module _ (c : Curve) (laws : CurveLaws c) where
  open c use {Scalar, Point, one, times, plus_points, multiscalar_mul}
  open laws use {scale, identity}

  -- The sum of the points by the powers of `x`, by Horner's rule.
  abbrev pub horner_points : Scalar → List Point → Point
  horner_points x [] = identity
  horner_points x (p ∷ ps) = plus_points p (scale x (horner_points x ps))

  multiscalar-powers :
      (x power : Scalar) (ps : List Point)
      → multiscalar_mul (powers c x power (length ps)) ps ≡ scale power (horner_points x ps)
  multiscalar-powers x power [] = laws.multiscalar_nil ∙ sym (laws.scale_identity power)
  multiscalar-powers x power (p ∷ ps) =
      laws.multiscalar_cons power p _ ps
      ∙ ap (plus_points (scale power p))
          (multiscalar-powers x (times power x) ps ∙ laws.scale_times power x (horner_points x ps))
      ∙ sym (laws.scale_points power p (scale x (horner_points x ps)))

  -- The points open to the values and the blinding at `x`.
  abbrev pub Opens : Scalar → List Scalar → Scalar → PedersenGenerators Point → List Point → Type 0
  Opens x values blinding generators points =
      multiscalar_mul (values ++ (blinding ∷ [])) (generators.g ++ (generators.h ∷ []))
      ≡ horner_points x points

  pub record IsVerified (x : Scalar) (values : List Scalar) (blinding : Scalar)
      (commitments : List CompressedPoint) (generators : PedersenGenerators Point) : Type 0 where
    pub points : List Point
    pub sized : length values ≡ vector_len generators
    pub nonempty : length commitments ≢ 0
    pub decompressed : decompress_all c commitments ≡ ok points
    pub opens : Opens x values blinding generators points

  -- The two sides that `verify_equation` compares, for decompressed commitments.
  equation_test :
      (x : Scalar) (values : List Scalar) (blinding : Scalar)
      (generators : PedersenGenerators Point) (points : List Point)
      → (c.point_eq
            (c.vartime_multiscalar_mul
              (values ++ (blinding ∷ []))
              (generators.g ++ (generators.h ∷ [])))
            (c.vartime_multiscalar_mul (powers c x one (length points)) points)
          ≡ true)
        ↔ Opens x values blinding generators points
  equation_test x values blinding generators points =
      rw
        (
          laws.vartime_eq (values ++ (blinding ∷ [])) (generators.g ++ (generators.h ∷ [])),
          laws.vartime_eq (powers c x one (length points)) points,
          multiscalar-powers x one points,
          laws.scale_one (horner_points x points),
        )
        (laws.point_eq_iff _ _)

  pub verify_equation_complete :
      (x : Scalar) (values : List Scalar) (blinding : Scalar) (commitments : List CompressedPoint)
      (generators : PedersenGenerators Point)
      → IsVerified x values blinding commitments generators
      → verify_equation c x values blinding commitments generators ≡ ok tt
  unfolding verify_equation
  verify_equation_complete x values blinding commitments generators v =
      let some_commitment : not (length commitments == 0) ≡ true =
        elim (Bool-cases (length commitments == 0)) [
          | inl e ↦ absurd (v.nonempty ((==_iff _ 0).0 e))
          | inr e ↦ rw e refl
        ] in
      rw (
        (==_iff (length values) (vector_len generators)).1 v.sized,
        some_commitment,
        weigh_commitments_lem c x one commitments,
        v.decompressed,
        (equation_test x values blinding generators v.points).1 v.opens,
      )

  pub verify_equation_sound :
      (x : Scalar) (values : List Scalar) (blinding : Scalar) (commitments : List CompressedPoint)
      (generators : PedersenGenerators Point)
      → verify_equation c x values blinding commitments generators ≡ ok tt
      → IsVerified x values blinding commitments generators
  unfolding verify_equation
  verify_equation_sound x values blinding commitments generators h =
      let (e, h1) = guard-eq-ok (length values == vector_len generators) _ _ h in
      let (ne, h2) = guard-eq-ok (not (length commitments == 0)) _ _ h1 in
      let (w, weighed, h3) = >>=-eq-ok (weigh_commitments c x one commitments) _ h2 in
      let (ps, decompressed, same) =
        >>=-eq-ok (decompress_all c commitments) _
          (sym (weigh_commitments_lem c x one commitments) ∙ weighed) in
      record {
        points = ps;
        sized = (==_iff _ _).0 e;
        nonempty = λ z. ground (arith, z, ne);
        decompressed = decompressed;
        opens = (equation_test x values blinding generators ps).0 (
            subst
              (λ (pair : List Scalar × List Point).
                c.point_eq
                  (c.vartime_multiscalar_mul (values ++ (blinding ∷ []))
                    (generators.g ++ (generators.h ∷ [])))
                  (c.vartime_multiscalar_mul pair.0 pair.1)
                ≡ true)
              (sym (ok_inj same)) (guard-passed _ _ h3));
      }
