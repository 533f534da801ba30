-- ===== src/Multiparty/Vss/Laws.antt =====
-- What the protocol relies on in the curve library: points are a module over the scalars, a
-- multiscalar product is the sum of the products, and a compressed point is decompressed.
use phantom_fhe.Base.{
  ℕ, suc, ◌≡◌, sym, ap, ap₂, ◌∙◌, ◌↔◌, List, [], ◌∷◌, some, true, length, replicate, arith,
}
use phantom_fhe.Multiparty.Vss.{Curve}

pub record CurveLaws (c : Curve) : Type 0 where
  pub scale : c.Scalar → c.Point → c.Point
  pub identity : c.Point
  pub points_assoc :
      (p q r : c.Point) → c.plus_points (c.plus_points p q) r ≡ c.plus_points p (c.plus_points q r)
  pub points_comm : (p q : c.Point) → c.plus_points p q ≡ c.plus_points q p
  pub points_identity : (p : c.Point) → c.plus_points identity p ≡ p
  pub scale_plus :
      (s t : c.Scalar) (p : c.Point) → scale (c.plus s t) p ≡ c.plus_points (scale s p) (scale t p)
  pub scale_points :
      (s : c.Scalar) (p q : c.Point)
      → scale s (c.plus_points p q) ≡ c.plus_points (scale s p) (scale s q)
  pub scale_times : (s t : c.Scalar) (p : c.Point) → scale (c.times s t) p ≡ scale s (scale t p)
  pub scale_one : (p : c.Point) → scale c.one p ≡ p
  pub scale_zero : (p : c.Point) → scale c.zero p ≡ identity
  pub scale_identity : (s : c.Scalar) → scale s identity ≡ identity
  pub times_comm : (s t : c.Scalar) → c.times s t ≡ c.times t s
  pub multiscalar_nil : c.multiscalar_mul [] [] ≡ identity
  pub multiscalar_cons :
      (s : c.Scalar) (p : c.Point) (ss : List c.Scalar) (ps : List c.Point)
      → c.multiscalar_mul (s ∷ ss) (p ∷ ps) ≡ c.plus_points (scale s p) (c.multiscalar_mul ss ps)
  pub vartime_eq :
      (ss : List c.Scalar) (ps : List c.Point)
      → c.vartime_multiscalar_mul ss ps ≡ c.multiscalar_mul ss ps
  pub point_eq_iff : (p q : c.Point) → (c.point_eq p q ≡ true) ↔ (p ≡ q)
  pub decompress_compress : (p : c.Point) → c.decompress (c.compress p) ≡ some p

module _ (c : Curve) (laws : CurveLaws c) where
  open c use {Scalar, Point, zero, plus, times, plus_points, multiscalar_mul}
  open laws use {scale, identity, points_assoc, points_comm}

  -- (p + q) + (r + s) = (p + r) + (q + s)
  pub exchange :
      (p q r s : Point)
      → plus_points (plus_points p q) (plus_points r s)
        ≡ plus_points (plus_points p r) (plus_points q s)
  exchange p q r s =
      points_assoc p q (plus_points r s)
      ∙ ap (plus_points p) (
          sym (points_assoc q r s)
          ∙ ap (λ t. plus_points t s) (points_comm q r)
          ∙ points_assoc r q s)
      ∙ sym (points_assoc p r (plus_points q s))

  pub points_identity_right : (p : Point) → plus_points p identity ≡ p
  points_identity_right p = points_comm p identity ∙ laws.points_identity p

  pub multiscalar-zeros :
      (n : ℕ) (ps : List Point) → length ps ≡ n → multiscalar_mul (replicate n zero) ps ≡ identity
  multiscalar-zeros ℕ.zero [] e = laws.multiscalar_nil
  multiscalar-zeros ℕ.zero (p ∷ ps) e = absurd (omega arith)
  multiscalar-zeros (suc n) [] e = absurd (omega arith)
  multiscalar-zeros (suc n) (p ∷ ps) e =
      laws.multiscalar_cons zero p (replicate n zero) ps
      ∙ ap₂ plus_points (laws.scale_zero p) (multiscalar-zeros n ps (omega arith))
      ∙ laws.points_identity identity
