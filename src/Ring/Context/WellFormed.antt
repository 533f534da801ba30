-- ===== src/Ring/Context/WellFormed.antt =====
-- Well-formed polynomials of a ring, and what the additive operations return on them.
use phantom_fhe.Base.{◌≡◌, ok, arith, All}
use phantom_fhe.Ring.Poly.{Poly}
use phantom_fhe.Ring.Reduce.{add_mod, sub_mod, neg_mod}
use phantom_fhe.Ring.Reduce.Range.{add_mod-lt, sub_mod-lt, neg_mod-lt}
use phantom_fhe.Ring.Context.{
  Ring, check_poly, add_assign, ring_add, sub_assign, ring_sub, neg_assign, ring_neg,
}
use phantom_fhe.Ring.Context.Rows.{
  IsModulus, AreRows, AreRows-length, zipped_rows, mapped_rows, zip_rows_lem, map_rows_lem,
  zipped_rows-AreRows, mapped_rows-AreRows,
}

-- The moduli of a ring are words above 1.
abbrev pub HasModuli : Ring → Type 0
HasModuli r = All IsModulus r.moduli

pub record IsPoly (r : Ring) (p : Poly) : Type 0 where
  pub same_degree : p.degree ≡ r.degree.get
  pub rows : AreRows r.degree.get r.moduli p.coeffs

pub check_poly_lem : (r : Ring) (p : Poly) → IsPoly r p → check_poly r p ≡ ok tt
unfolding check_poly
check_poly_lem r p v = ground (arith, AreRows-length r.degree.get r.moduli p.coeffs v.rows)

module _ (r : Ring) (p q : Poly) (vp : IsPoly r p) (vq : IsPoly r q) where
  pub ring_add_lem :
      ring_add r p q ≡ ok (record p { coeffs = zipped_rows add_mod r.moduli p.coeffs q.coeffs })
  unfolding ring_add add_assign
  ring_add_lem = rw (
    check_poly_lem r p vp,
    check_poly_lem r q vq,
    zip_rows_lem add_mod r.degree.get r.moduli p.coeffs q.coeffs vp.rows vq.rows,
  )

  pub ring_sub_lem :
      ring_sub r p q ≡ ok (record p { coeffs = zipped_rows sub_mod r.moduli p.coeffs q.coeffs })
  unfolding ring_sub sub_assign
  ring_sub_lem = rw (
    check_poly_lem r p vp,
    check_poly_lem r q vq,
    zip_rows_lem sub_mod r.degree.get r.moduli p.coeffs q.coeffs vp.rows vq.rows,
  )

  pub added-IsPoly :
      HasModuli r → IsPoly r (record p { coeffs = zipped_rows add_mod r.moduli p.coeffs q.coeffs })
  added-IsPoly hm = record {
    same_degree = vp.same_degree;
    rows =
        zipped_rows-AreRows add_mod r.degree.get
          (λ m a b v h k. add_mod-lt m.value (omega arith) v.1 a b) r.moduli p.coeffs q.coeffs hm
          vp.rows vq.rows;
  }

  pub subtracted-IsPoly :
      HasModuli r → IsPoly r (record p { coeffs = zipped_rows sub_mod r.moduli p.coeffs q.coeffs })
  subtracted-IsPoly hm = record {
    same_degree = vp.same_degree;
    rows =
        zipped_rows-AreRows sub_mod r.degree.get
          (λ m a b v h k. sub_mod-lt m.value (omega arith) v.1 a b h k) r.moduli p.coeffs q.coeffs
          hm vp.rows vq.rows;
  }

module _ (r : Ring) (p : Poly) (vp : IsPoly r p) where
  pub ring_neg_lem : ring_neg r p ≡ ok (record p { coeffs = mapped_rows neg_mod r.moduli p.coeffs })
  unfolding ring_neg neg_assign
  ring_neg_lem =
      rw (check_poly_lem r p vp, map_rows_lem neg_mod r.degree.get r.moduli p.coeffs vp.rows)

  pub negated-IsPoly :
      HasModuli r → IsPoly r (record p { coeffs = mapped_rows neg_mod r.moduli p.coeffs })
  negated-IsPoly hm = record {
    same_degree = vp.same_degree;
    rows =
        mapped_rows-AreRows neg_mod r.degree.get
          (λ m a v h. neg_mod-lt m.value (omega arith) v.1 a h) r.moduli p.coeffs hm vp.rows;
  }
