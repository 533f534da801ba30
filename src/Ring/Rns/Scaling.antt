-- ===== src/Ring/Rns/Scaling.antt =====
-- What the operations on whole polynomials of rns/extension.rs and rns/rescale.rs return.
use phantom_fhe.Base.{
  ℕ, zero, suc, ◌+◌, ◌*◌, ◌%◌, ◌≤◌, ◌<◌, ◌≡◌, refl, ap, ◌∙◌, List, [], ◌∷◌, map, false, ltb, ok,
  ◌==◌, ==_iff, ==_refl, All, length, length-map, tabulate, tabulate-length, IsU64, arith,
}
use phantom_fhe.Ring.Types.{Modulus}
use phantom_fhe.Ring.Poly.{Poly, from_coeffs, first_length, any_of_other_length}
use phantom_fhe.Ring.BigUint.{BigUint}
use phantom_fhe.Ring.BigUint.Value.{value, IsNormal}
use phantom_fhe.Ring.Rns.{RnsBasis, residue_rows, extend_basis}
use phantom_fhe.Ring.Rns.Value.{AreWords}
use phantom_fhe.Ring.Rns.Values.{
  crt_value, AreValues, IsReadable, reconstruct_true_values_lem, residue_row_lem,
}
use phantom_fhe.Ring.Rns.Rescale.{rounded_row, rounded_rows}
use phantom_fhe.Ring.Rns.Rounding.{nearest, least_magnitude, signed, rounded_residue_lem}

none-other_length :
    (n : ℕ) (rows : List (List ℕ))
    → All (λ row. length row ≡ n) rows
    → any_of_other_length n rows ≡ false
unfolding any_of_other_length
none-other_length n [] h = refl
none-other_length n (row ∷ rows) h =
    rw ((==_iff (length row) n).1 h.0, none-other_length n rows h.1) refl

-- Rows of one positive length make a polynomial.
pub from_coeffs-rows :
    (n : ℕ) (rows : List (List ℕ))
    → 0 < n
    → 0 < length rows
    → All (λ row. length row ≡ n) rows
    → from_coeffs rows ≡ ok (record { degree = n; coeffs = rows })
unfolding from_coeffs first_length any_of_other_length
from_coeffs-rows n [] pos some_row h = absurd (omega arith)
from_coeffs-rows n (row ∷ rows) pos some_row h =
    let nonzero : (length row == 0) ≡ false = ground (arith, h.0, pos) in
    let same : any_of_other_length (length row) rows ≡ false =
      ap (λ (k : ℕ). any_of_other_length k rows) h.0 ∙ none-other_length n rows h.1 in
    rw (nonzero, ==_refl (length row), same)
      (ap (λ (k : ℕ). ok (record { degree = k; coeffs = row ∷ rows })) h.0)

-- One row for each modulus, its entries a function of the modulus and the index.
abbrev pub table : (Modulus → ℕ → ℕ) → List Modulus → ℕ → List (List ℕ)
table f ms n = map (λ m. tabulate (f m) n 0) ms

pub table-lengths :
    (f : Modulus → ℕ → ℕ) (ms : List Modulus) (n : ℕ) → All (λ row. length row ≡ n) (table f ms n)
table-lengths f [] n = tt
table-lengths f (m ∷ ms) n = (tabulate-length (f m) n 0, table-lengths f ms n)

residue_rows_lem :
    (g : ℕ → ℕ) (ms : List Modulus) (n : ℕ) (values : List BigUint)
    → AreWords ms
    → AreValues g n 0 values
    → residue_rows ms values ≡ ok (table (λ m j. g j % m.value) ms n)
unfolding residue_rows
residue_rows_lem g [] n values w h = refl
residue_rows_lem g (m ∷ ms) n values w h =
    rw (residue_row_lem g m n 0 values w.0.0 w.0.1 h, residue_rows_lem g ms n values w.1 h) refl

-- For a polynomial whose components have entries for every coefficient, and bases of positive
-- words, the target not empty: the extension is computed, and its entry for a modulus and an index
-- is the coefficient's value, below the product of the source's moduli, modulo that modulus.
pub extend_basis_lem :
    (poly : Poly) (source target : RnsBasis)
    → IsReadable poly source.moduli
    → AreWords target.moduli
    → 0 < length target.moduli
    → extend_basis poly source target
      ≡ ok (record {
        degree = poly.degree;
        coeffs =
            table
              (λ m j. crt_value poly.coeffs source.moduli j % m.value)
              target.moduli
              poly.degree;
      })
unfolding extend_basis
extend_basis_lem poly source target h w some_modulus =
    let (values, run, all) = reconstruct_true_values_lem poly source h in
    let entry : Modulus → ℕ → ℕ = λ m j. crt_value poly.coeffs source.moduli j % m.value in
    rw
      (
        run,
        residue_rows_lem (crt_value poly.coeffs source.moduli) target.moduli poly.degree values w
            all,
      )
      (from_coeffs-rows poly.degree (table entry target.moduli poly.degree) h.positive
        (omega
          (arith, some_modulus, length-map target.moduli (λ m. tabulate (entry m) poly.degree 0)))
        (table-lengths entry target.moduli poly.degree))

module _ (big_qp big_q : BigUint) (t : ℕ) (g : ℕ → ℕ) (nqp : IsNormal big_qp) (nq : IsNormal big_q)
    (pos : 0 < value big_q) (wt : IsU64 t) (below : (j : ℕ) → g j ≤ value big_qp) where
  -- The residue modulo q of the scaled and rounded value at an index.
  abbrev pub rounded_entry : ℕ → ℕ → ℕ
  rounded_entry q j =
      signed (ltb (value big_qp) (g j * 2))
        (nearest (least_magnitude (value big_qp) (g j)) t (value big_q)) q

  pub rounded_row_lem :
      (q n i : ℕ) (values : List BigUint)
      → 0 < q
      → IsU64 q
      → AreValues g n i values
      → rounded_row big_qp big_q t q values ≡ ok (tabulate (rounded_entry q) n i)
  unfolding rounded_row
  rounded_row_lem q zero i [] posq wq h = refl
  rounded_row_lem q zero i (v ∷ vs) posq wq h = absurd h
  rounded_row_lem q (suc n) i [] posq wq h = absurd h
  rounded_row_lem q (suc n) i (v ∷ vs) posq wq (exact, normal, rest) =
      let first =
        rounded_residue_lem big_qp big_q v t q nqp nq normal pos (omega (arith, below i, exact)) wt
          posq wq in
      rw (first, rounded_row_lem q n (i + 1) vs posq wq rest, exact) refl

  pub rounded_rows_lem :
      (ms : List Modulus) (n : ℕ) (values : List BigUint)
      → AreWords ms
      → AreValues g n 0 values
      → rounded_rows big_qp big_q t ms values ≡ ok (table (λ m. rounded_entry m.value) ms n)
  unfolding rounded_rows
  rounded_rows_lem [] n values w h = refl
  rounded_rows_lem (m ∷ ms) n values w h =
      rw (rounded_row_lem m.value n 0 values w.0.0 w.0.1 h, rounded_rows_lem ms n values w.1 h) refl
