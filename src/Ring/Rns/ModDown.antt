-- ===== src/Ring/Rns/ModDown.antt =====
-- crates/phantom-ring/src/rns/rescale.rs: `mod_down` on whole polynomials.
use native.Mathlib.Nat
use phantom_fhe.Base.{
  ℕ, ◌+◌, ◌-◌, ◌*◌, ◌%◌, ◌^◌, ◌<◌, ◌≡◌, ap, ap₂, ◌∙◌, List, ok, ==_iff, length, drop, tabulate,
  length-map, arith,
}
use phantom_fhe.Ring.Types.{Modulus}
use phantom_fhe.Ring.Poly.{Poly, moduli_count}
use phantom_fhe.Ring.Reduce.{sub_mod, mul_mod, inv_mod}
use phantom_fhe.Ring.BigUint.Value.{value}
use phantom_fhe.Ring.Rns.{RnsBasis, basis_product}
use phantom_fhe.Ring.Rns.Constants.{modulus_product}
use phantom_fhe.Ring.Rns.Residues.{modulus-bounds}
use phantom_fhe.Ring.Rns.Cofactors.{modulus_at, residue_at}
use phantom_fhe.Ring.Rns.Value.{AreWords, basis_product_lem}
use phantom_fhe.Ring.Rns.Values.{crt_value}
use phantom_fhe.Ring.Rns.Scaling.{table, extend_basis_lem, from_coeffs-rows, table-lengths}
use phantom_fhe.Ring.Rns.Switching.{mod_down_lem}
use phantom_fhe.Ring.Rns.Rescale.{mod_down}
use phantom_fhe.Ring.Rns.Down.{
  coeff_at_lem, table-residue_at, indexed, indexed-residue_at, indexed-lengths, mod_down_rows_lem,
  down_entry, IsWhole, All-drop, length-drop, rows-HasEntries,
}

-- The value of coefficient `i` on the components after the first `skip`.
abbrev pub rest_value : Poly → ℕ → List Modulus → ℕ → ℕ
rest_value poly skip ms i = crt_value (drop skip poly.coeffs) ms i

-- For a polynomial over two bases of positive words, the second not empty, with as many components
-- as both have moduli, all of its degree, which is positive, and a modulus q of the first basis
-- above 1, modulo which the product P of the second satisfies the equation of Fermat's little
-- theorem, and a coefficient with its residue below q: `mod_down` never panics, and the result's
-- entry times P, plus the coefficient's value on the second basis, is the residue modulo q.
pub mod_down-quotient :
    (poly : Poly) (q_basis p_basis : RnsBasis) (j i : ℕ)
    → AreWords q_basis.moduli
    → AreWords p_basis.moduli
    → 0 < length p_basis.moduli
    → IsWhole poly (length q_basis.moduli + length p_basis.moduli)
    → j < length q_basis.moduli
    → i < poly.degree
    → 1 < modulus_at q_basis.moduli j
    → residue_at poly.coeffs j i < modulus_at q_basis.moduli j
    → (modulus_product p_basis.moduli % modulus_at q_basis.moduli j)
          ^ (modulus_at q_basis.moduli j - 1)
        % modulus_at q_basis.moduli j
      ≡ 1
    → (out : Poly) × (mod_down poly q_basis p_basis ≡ ok out)
      × ((residue_at out.coeffs j i * modulus_product p_basis.moduli
              + rest_value poly (length q_basis.moduli) p_basis.moduli i)
            % modulus_at q_basis.moduli j
          ≡ residue_at poly.coeffs j i)
unfolding mod_down moduli_count
mod_down-quotient poly q_basis p_basis j i wq wp some_p h l k large below fermat =
    let some_q : 0 < length q_basis.moduli = omega (arith, l) in
    let qs = q_basis.moduli in
    let ps = p_basis.moduli in
    let n = poly.degree in
    let big_p = basis_product ps in
    let p_coeffs = drop (length qs) poly.coeffs in
    let p_part : Poly = record { degree = n; coeffs = p_coeffs } in
    let p_count : length p_coeffs ≡ length ps =
      omega (arith, length-drop (length qs) poly.coeffs, h.counted) in
    let p_rows = All-drop (λ row. length row ≡ n) (length qs) poly.coeffs h.rows in
    let cut = from_coeffs-rows n p_coeffs h.positive (omega (arith, p_count, some_p)) p_rows in
    let (exact, normal) = basis_product_lem ps wp in
    let extended =
      extend_basis_lem p_part p_basis q_basis
        (record {
          counted = unfold moduli_count in p_count;
          words = wp;
          positive = h.positive;
          entries = λ i l. rows-HasEntries p_coeffs ps n i p_count p_rows l;
        })
        wq some_q in
    let f : ℕ → ℕ → ℕ = λ q i. crt_value p_coeffs ps i % q in
    let t = table (λ m. f m.value) qs n in
    let run =
      mod_down_rows_lem poly.coeffs t big_p normal n (length qs)
        (λ j i l k. coeff_at_lem poly.coeffs n j i h.rows (omega (arith, h.counted, l)) k)
        (λ j i l k.
          coeff_at_lem t n j i (table-lengths (λ m. f m.value) qs n)
            (omega (arith, length-map qs (λ m. tabulate (f m.value) n 0), l)) k)
        qs 0 wq (omega arith) in
    let entry = down_entry poly.coeffs t (value big_p) in
    let (lengths, count) = indexed-lengths entry qs n 0 in
    let made =
      from_coeffs-rows n (indexed entry qs n 0) h.positive (omega (arith, count, some_q)) lengths in
    (
      record { degree = n; coeffs = indexed entry qs n 0 },
      rw ((==_iff _ _).1 h.counted, cut, extended, run) made,
      let q = modulus_at qs j in
          let word = modulus-bounds qs j wq l in
          let part : residue_at t j i ≡ crt_value p_coeffs ps i % q =
            table-residue_at f qs n j i l k in
          let own =
            indexed-residue_at entry qs n 0 j i l k
            ∙ ap (λ (a : ℕ). entry a q i) (Nat.zero-add j) in
          ap (λ (c : ℕ). (c * modulus_product ps + crt_value p_coeffs ps i) % q)
            {y = mul_mod (sub_mod (residue_at poly.coeffs j i) (crt_value p_coeffs ps i % q) q)
              (inv_mod (modulus_product ps % q) q) q}
            (own
              ∙ ap₂
                  (λ (a b : ℕ).
                    mul_mod (sub_mod (residue_at poly.coeffs j i) a q) (inv_mod (b % q) q) q)
                  part exact)
          ∙ mod_down_lem (residue_at poly.coeffs j i) (crt_value p_coeffs ps i) (modulus_product ps)
              q large word below fermat,
    )
