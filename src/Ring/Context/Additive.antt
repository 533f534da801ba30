-- ===== src/Ring/Context/Additive.antt =====
-- Under addition the well-formed polynomials of a ring are an abelian group.
use native.Mathlib.Nat
use phantom_fhe.Base.{ℕ, ◌+◌, ◌-◌, ◌%◌, ◌<◌, ◌≡◌, sym, ap, ap₂, ◌∙◌, List, ok, ◌>>=◌, arith}
use phantom_fhe.Ring.Types.{Modulus}
use phantom_fhe.Ring.Poly.{Poly, poly_zero}
use phantom_fhe.Ring.Reduce.{add_mod, sub_mod, neg_mod}
use phantom_fhe.Ring.Reduce.Range.{
  add_mod_lem, sub_mod_lem, neg_mod_lem, sub_mod-add_mod, add_mod-neg_mod,
}
use phantom_fhe.Ring.Context.{Ring, ring_zero, ring_add, ring_sub, ring_neg}
use phantom_fhe.Ring.Context.Rows.{IsModulus, zipped_rows}
use phantom_fhe.Ring.Context.RowLaws.{
  zipped_rows_comm, zipped_rows_assoc, zipped_rows_cancel, zipped_rows_undo,
}
use phantom_fhe.Ring.Context.WellFormed.{
  HasModuli, IsPoly, ring_add_lem, ring_sub_lem, ring_neg_lem, added-IsPoly, negated-IsPoly,
}

module _ (m : Modulus) (v : IsModulus m) where
  abbrev q : ℕ
  q = m.value

  pub residue_comm : (a b : ℕ) → add_mod a b q ≡ add_mod b a q
  residue_comm a b =
      rw
        (add_mod_lem q (omega arith) v.1 a b, add_mod_lem q (omega arith) v.1 b a, Nat.add_comm a b)

  pub residue_assoc : (a b c : ℕ) → add_mod (add_mod a b q) c q ≡ add_mod a (add_mod b c q) q
  residue_assoc a b c =
      rw
        (
          add_mod_lem q (omega arith) v.1 (add_mod a b q) c,
          add_mod_lem q (omega arith) v.1 a b,
          add_mod_lem q (omega arith) v.1 a (add_mod b c q),
          add_mod_lem q (omega arith) v.1 b c,
        )
        (Nat.mod-add-mod (a + b) q c
          ∙ ap (λ (t : ℕ). t % q) (Nat.add_assoc a b c)
          ∙ sym (Nat.add-mod-mod a (b + c) q))

  pub residue_sub : (a b : ℕ) → a < q → b < q → sub_mod a b q ≡ add_mod a (neg_mod b q) q
  residue_sub a b h k =
      rw
        (
          sub_mod_lem q (omega arith) v.1 a b h k,
          add_mod_lem q (omega arith) v.1 a (neg_mod b q),
          neg_mod_lem q (omega arith) v.1 b k,
        )
        (sym (Nat.add-mod-mod a (q - b) q))

module _ (r : Ring) (hm : HasModuli r) where
  -- In a ring whose moduli are words above 1, the sum of two polynomials of the ring is returned
  -- and is of the ring, and subtracting the second operand gives back the first.
  pub ring_sub-ring_add :
      (p t : Poly)
      → IsPoly r p
      → IsPoly r t
      → (s : Poly) × (ring_add r p t ≡ ok s) × IsPoly r s × (ring_sub r s t ≡ ok p)
  ring_sub-ring_add p t vp vt =
      let vs = added-IsPoly r p t vp vt hm in
      (
        record p { coeffs = zipped_rows add_mod r.moduli p.coeffs t.coeffs },
        ring_add_lem r p t vp vt,
        vs,
        ring_sub_lem r _ t vs vt
            ∙ ap (λ (c : List (List ℕ)). ok (record p { coeffs = c }))
                (zipped_rows_undo add_mod r.degree.get sub_mod
                  (λ m a b v h k. sub_mod-add_mod m.value (omega arith) v.1 a b h k) r.moduli
                  p.coeffs t.coeffs hm vp.rows vt.rows),
      )

  -- In a ring whose moduli are words above 1, addition of polynomials of the ring is commutative.
  pub ring_add_comm : (p t : Poly) → IsPoly r p → IsPoly r t → ring_add r p t ≡ ring_add r t p
  ring_add_comm p t vp vt =
      ring_add_lem r p t vp vt
      ∙ ap₂ (λ (d : ℕ) (c : List (List ℕ)). ok (record { degree = d; coeffs = c }))
          (vp.same_degree ∙ sym vt.same_degree)
          (zipped_rows_comm add_mod r.degree.get (λ m a b v h k. residue_comm m v a b) r.moduli
            p.coeffs t.coeffs hm vp.rows vt.rows)
      ∙ sym (ring_add_lem r t p vt vp)

  -- In a ring whose moduli are words above 1, addition of polynomials of the ring is associative.
  pub ring_add_assoc :
      (p t u : Poly)
      → IsPoly r p
      → IsPoly r t
      → IsPoly r u
      → (ring_add r p t >>= λ s. ring_add r s u) ≡ (ring_add r t u >>= λ s. ring_add r p s)
  ring_add_assoc p t u vp vt vu =
      rw
        (
          ring_add_lem r p t vp vt,
          ring_add_lem r t u vt vu,
          ring_add_lem r _ u (added-IsPoly r p t vp vt hm) vu,
          ring_add_lem r p _ vp (added-IsPoly r t u vt vu hm),
        )
        (ap (λ (c : List (List ℕ)). ok (record p { coeffs = c }))
          (zipped_rows_assoc add_mod r.degree.get (λ m a b c v h k l. residue_assoc m v a b c)
            r.moduli p.coeffs t.coeffs u.coeffs hm vp.rows vt.rows vu.rows))

  -- In a ring whose moduli are words above 1, a polynomial of the ring and its negation add up to
  -- the zero polynomial.
  pub ring_add-ring_neg :
      (p : Poly) → IsPoly r p → (ring_neg r p >>= ring_add r p) ≡ ok (ring_zero r)
  unfolding ring_zero poly_zero
  ring_add-ring_neg p vp =
      rw (ring_neg_lem r p vp, ring_add_lem r p _ vp (negated-IsPoly r p vp hm))
        (ap₂ (λ (d : ℕ) (c : List (List ℕ)). ok (record { degree = d; coeffs = c })) vp.same_degree
          (zipped_rows_cancel add_mod r.degree.get neg_mod
            (λ m a v h. add_mod-neg_mod m.value (omega arith) v.1 a h) r.moduli p.coeffs hm
            vp.rows))
