-- ===== src/Ring/Rns/Decoding.antt =====
-- crates/phantom-ring/src/rns/rescale.rs: scaled decoding and rescaling of whole polynomials.
use native.Mathlib.Nat
use phantom_fhe.Base.{
  ℕ, ◌+◌, ◌*◌, ◌≤◌, ◌<◌, ◌≡◌, refl, ap, ap₂, ◌∙◌, List, [], ◌∷◌, ◌++◌, ltb, ok, ==_iff, length,
  length-append, length-map, tabulate, IsU64, arith,
}
use phantom_fhe.Ring.Types.{Modulus}
use phantom_fhe.Ring.Poly.{Poly, moduli_count}
use phantom_fhe.Ring.BigUint.Value.{value}
use phantom_fhe.Ring.Rns.{RnsBasis, basis_new, basis_product}
use phantom_fhe.Ring.Rns.Constants.{modulus_product}
use phantom_fhe.Ring.Rns.Value.{AreWords, basis_product_lem, modulus_product-pos}
use phantom_fhe.Ring.Rns.Values.{crt_value, IsReadable, reconstruct_true_values_lem}
use phantom_fhe.Ring.Rns.Rescale.{rescale_and_round, decode_scaled_value}
use phantom_fhe.Ring.Rns.Rounding.{nearest, least_magnitude, signed}
use phantom_fhe.Ring.Rns.Scaling.{
  table, rounded_row_lem, rounded_rows_lem, from_coeffs-rows, table-lengths,
}

-- A value modulo `big_qp`, as the number of least magnitude, times t over `big_q`, rounded to the
-- nearest integer, modulo q.
abbrev pub scaled : ℕ → ℕ → ℕ → ℕ → ℕ → ℕ
scaled big_qp big_q t q v =
    signed (ltb big_qp (v * 2)) (nearest (least_magnitude big_qp v) t big_q) q

crt_value-le :
    (rows : List (List ℕ)) (ms : List Modulus) (i : ℕ)
    → AreWords ms
    → crt_value rows ms i ≤ modulus_product ms
crt_value-le rows ms i w = omega (arith, Nat.mod-lt _ (modulus_product-pos ms w))

-- For a polynomial whose components have entries for every coefficient, a basis of positive words
-- and a positive word t: decoding never panics, and gives for every coefficient its value as the
-- number of least magnitude modulo the product Q of the basis, times t over Q, rounded to the
-- nearest integer, modulo t.
pub decode_scaled_value_lem :
    (poly : Poly) (basis : RnsBasis) (t : Modulus)
    → IsReadable poly basis.moduli
    → 0 < t.value
    → IsU64 t.value
    → decode_scaled_value poly basis t
      ≡ ok (
          tabulate
            (λ i.
              scaled
                (modulus_product basis.moduli)
                (modulus_product basis.moduli)
                t.value
                t.value
                (crt_value poly.coeffs basis.moduli i))
            poly.degree
            0)
unfolding decode_scaled_value
decode_scaled_value_lem poly basis t h pos wt =
    let ms = basis.moduli in
    let (values, run, all) = reconstruct_true_values_lem poly basis h in
    let (exact, normal) = basis_product_lem ms h.words in
    let row =
      rounded_row_lem (basis_product ms) (basis_product ms) t.value (crt_value poly.coeffs ms)
        normal normal (omega (arith, exact, modulus_product-pos ms h.words)) wt
        (λ j. omega (arith, exact, crt_value-le poly.coeffs ms j h.words)) t.value poly.degree 0
        values pos wt all in
    rw ((==_iff (moduli_count poly) (length ms)).1 h.counted, run)
      (row
        ∙ ap
            (λ (big_q : ℕ). ok (
              tabulate (λ i. scaled big_q big_q t.value t.value (crt_value poly.coeffs ms i))
                poly.degree 0))
            exact)

basis_new-nonempty :
    (ms : List Modulus) → 0 < length ms → basis_new ms ≡ ok (record { moduli = ms })
unfolding basis_new
basis_new-nonempty [] h = absurd (omega arith)
basis_new-nonempty (m ∷ ms) h = refl

-- For a polynomial over two bases of positive words, the first not empty, whose components have
-- entries for every coefficient, and a word t: rescaling never panics, and its entry for a modulus
-- of the first basis is the coefficient's value as the number of least magnitude modulo the
-- product of both, times t over the product of the first, rounded to the nearest integer, modulo
-- that modulus.
pub rescale_and_round_lem :
    (poly : Poly) (q_basis p_basis : RnsBasis) (t : Modulus)
    → IsReadable poly (q_basis.moduli ++ p_basis.moduli)
    → AreWords q_basis.moduli
    → 0 < length q_basis.moduli
    → IsU64 t.value
    → rescale_and_round poly q_basis p_basis t
      ≡ ok (record {
        degree = poly.degree;
        coeffs =
            table
              (λ m i.
                scaled
                  (modulus_product (q_basis.moduli ++ p_basis.moduli))
                  (modulus_product q_basis.moduli)
                  t.value
                  m.value
                  (crt_value poly.coeffs (q_basis.moduli ++ p_basis.moduli) i))
              q_basis.moduli
              poly.degree;
      })
unfolding rescale_and_round
rescale_and_round_lem poly q_basis p_basis t h wq some_modulus wt =
    let qs = q_basis.moduli in
    let ms = qs ++ p_basis.moduli in
    let basis : RnsBasis = record { moduli = ms } in
    let (values, run, all) = reconstruct_true_values_lem poly basis h in
    let (exact, normal) = basis_product_lem ms h.words in
    let (exact_q, normal_q) = basis_product_lem qs wq in
    let rows =
      rounded_rows_lem (basis_product ms) (basis_product qs) t.value (crt_value poly.coeffs ms)
        normal normal_q (omega (arith, exact_q, modulus_product-pos qs wq)) wt
        (λ j. omega (arith, exact, crt_value-le poly.coeffs ms j h.words)) qs poly.degree values wq
        all in
    let entry : Modulus → ℕ → ℕ = λ m i.
      scaled (value (basis_product ms)) (value (basis_product qs)) t.value m.value
        (crt_value poly.coeffs ms i) in
    rw
      (
        (==_iff (moduli_count poly) (length qs + length p_basis.moduli)).1
            (h.counted ∙ length-append qs p_basis.moduli),
        basis_new-nonempty ms (omega (arith, length-append qs p_basis.moduli, some_modulus)),
        run,
        rows,
      )
      (from_coeffs-rows poly.degree (table entry qs poly.degree) h.positive
          (omega (arith, some_modulus, length-map qs (λ m. tabulate (entry m) poly.degree 0)))
          (table-lengths entry qs poly.degree)
        ∙ ap
            (λ (b : ℕ × ℕ). ok (record {
              degree = poly.degree;
              coeffs =
                  table (λ m i. scaled b.0 b.1 t.value m.value (crt_value poly.coeffs ms i)) qs
                    poly.degree;
            }))
            {x = (value (basis_product ms), value (basis_product qs))}
            {y = (modulus_product ms, modulus_product qs)}
            (ap₂ (λ (a b : ℕ). (a, b)) exact exact_q))
