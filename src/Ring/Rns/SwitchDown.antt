-- ===== src/Ring/Rns/SwitchDown.antt =====
-- crates/phantom-ring/src/rns/rescale.rs: `modulus_switch_down` on whole polynomials.
use native.Mathlib.Nat
use phantom_fhe.Base.{
  ℕ, zero, suc, ◌+◌, ◌-◌, ◌*◌, ◌%◌, ◌^◌, ◌≤◌, ◌<◌, ◌≡◌, refl, ap, ap₂, ◌∙◌, subst, List, [], ◌∷◌,
  ok, ◌==◌, ==_iff, length, take, index, true, not, leb, ◌||◌, length-take, collect-tabulate, IsU64,
  arith,
}
use phantom_fhe.Ring.Error.{RingError}
use phantom_fhe.Ring.Types.{Modulus}
use phantom_fhe.Ring.Poly.{Poly, moduli_count}
use phantom_fhe.Ring.Rns.{RnsBasis, basis_new}
use phantom_fhe.Ring.Rns.Cofactors.{modulus_at, residue_at}
use phantom_fhe.Ring.Rns.Value.{AreWords}
use phantom_fhe.Ring.Rns.Values.{crt_value}
use phantom_fhe.Ring.Rns.Scaling.{table, extend_basis_lem, from_coeffs-rows, table-lengths}
use phantom_fhe.Ring.Rns.Residues.{modulus-bounds}
use phantom_fhe.Ring.Rns.Switching.{IsCorrection, switch_correction_lem, switch_residue_lem}
use phantom_fhe.Ring.Rns.Rescale.{
  coeff_at, switch_correction, switch_residue, switch_cell, switch_rows, modulus_switch_down,
}
use phantom_fhe.Ring.Rns.Down.{
  coeff_at_lem, table-residue_at, indexed, indexed-residue_at, indexed-lengths, IsWhole,
  rows-HasEntries,
}

module _ (rows c_t_rows : List (List ℕ)) (last q_last t n : ℕ) (inside : last < length rows)
    (readable : (j i : ℕ) → j < length rows → i < n → coeff_at rows j i ≡ ok (residue_at rows j i))
    (t_readable : (i : ℕ) → i < n → coeff_at c_t_rows 0 i ≡ ok (residue_at c_t_rows 0 i)) where
  switch_rows_lem :
      (ms : List Modulus) (j : ℕ)
      → j + length ms ≤ length rows
      → switch_rows rows c_t_rows last q_last t n ms j
        ≡ ok (
            indexed
              (λ k q i.
                switch_residue q_last
                  (switch_correction q_last t (residue_at rows last i) (residue_at c_t_rows 0 i))
                  q
                  (residue_at rows k i))
              ms
              n
              j)
  unfolding switch_rows switch_cell
  switch_rows_lem [] j l = refl
  switch_rows_lem (m ∷ ms) j l =
      let row =
        collect-tabulate (switch_cell rows c_t_rows last q_last t m.value j)
          (λ i.
            switch_residue q_last
              (switch_correction q_last t (residue_at rows last i) (residue_at c_t_rows 0 i))
              m.value (residue_at rows j i))
          n 0
          (λ i h.
            rw
              (
                readable last i inside (omega arith),
                t_readable i (omega arith),
                readable j i (omega arith) (omega arith),
              )
              refl) in
      rw (row, switch_rows_lem ms (j + 1) (omega arith)) refl

modulus_at-get :
    (ms : List Modulus) (j : ℕ)
    → j < length ms
    → (m : Modulus) × (index {E = RingError} ms j ≡ ok m) × (modulus_at ms j ≡ m.value)
modulus_at-get [] j l = absurd (omega arith)
modulus_at-get (m ∷ ms) zero l = (m, refl, refl)
modulus_at-get (m ∷ ms) (suc j) l = modulus_at-get ms j (omega arith)

modulus_at-take : (ms : List Modulus) (n j : ℕ) → j < n → modulus_at (take n ms) j ≡ modulus_at ms j
modulus_at-take [] (suc n) j l = refl
modulus_at-take ms zero j l = absurd (omega arith)
modulus_at-take (m ∷ ms) (suc n) zero l = refl
modulus_at-take (m ∷ ms) (suc n) (suc j) l = modulus_at-take ms n j (omega arith)

-- For a polynomial over a basis of two moduli at least, positive words, with as many components,
-- all of its degree, which is positive, and a word t above 1, where the last modulus q satisfies
-- the equation of Fermat's little theorem modulo t and modulo another modulus above 1, and a
-- coefficient whose last residue is below q: `modulus_switch_down` never panics, there is a
-- correction that makes the coefficient divisible by q, is (q - 1) times its value modulo t, and
-- is below q * t, and the result's entry for that other modulus, times q, is the corrected
-- residue.
pub modulus_switch_down-quotient :
    (poly : Poly) (basis : RnsBasis) (t : Modulus) (last j i : ℕ)
    → AreWords basis.moduli
    → length basis.moduli ≡ suc last
    → IsWhole poly (length basis.moduli)
    → 1 < t.value
    → IsU64 t.value
    → (modulus_at basis.moduli last % t.value) ^ (t.value - 1) % t.value ≡ 1
    → i < poly.degree
    → residue_at poly.coeffs last i < modulus_at basis.moduli last
    → j < last
    → 1 < modulus_at basis.moduli j
    → (modulus_at basis.moduli last % modulus_at basis.moduli j) ^ (modulus_at basis.moduli j - 1)
        % modulus_at basis.moduli j
      ≡ 1
    → (out : Poly) × (correction : ℕ) × (modulus_switch_down poly basis t ≡ ok out)
      × IsCorrection
          (modulus_at basis.moduli last)
          t.value
          (residue_at poly.coeffs last i)
          (crt_value poly.coeffs basis.moduli i % t.value)
          correction
      × (residue_at out.coeffs j i * modulus_at basis.moduli last % modulus_at basis.moduli j
          ≡ (residue_at poly.coeffs j i + correction) % modulus_at basis.moduli j)
unfolding modulus_switch_down moduli_count basis_new
modulus_switch_down-quotient poly basis t last j i w count h large wt fermat l below' k large'
      fermat'' =
    let some_other : 0 < last = omega (arith, k) in
    let ms = basis.moduli in
    let n = poly.degree in
    let rows = poly.coeffs in
    let (m_last, got, known) = modulus_at-get ms last (omega (arith, count)) in
    let f : ℕ → ℕ → ℕ = λ q i. crt_value rows ms i % q in
    let c_t = table (λ m. f m.value) (t ∷ []) n in
    let extended =
      extend_basis_lem poly basis (record { moduli = t ∷ [] })
        (record {
          counted = unfold moduli_count in h.counted;
          words = w;
          positive = h.positive;
          entries = λ i l. rows-HasEntries rows ms n i h.counted h.rows l;
        })
        ((omega (arith, large), wt), tt) (omega arith) in
    let run =
      switch_rows_lem rows c_t last m_last.value t.value n (omega (arith, h.counted, count))
        (λ j i l k. coeff_at_lem rows n j i h.rows l k)
        (λ i k. coeff_at_lem c_t n 0 i (table-lengths (λ m. f m.value) (t ∷ []) n) (omega arith) k)
        (take last ms) 0 (omega (arith, length-take last ms, h.counted, count)) in
    let entry : ℕ → ℕ → ℕ → ℕ = λ k q i.
      switch_residue m_last.value
        (switch_correction m_last.value t.value (residue_at rows last i) (residue_at c_t 0 i)) q
        (residue_at rows k i) in
    let others = take last ms in
    let (lengths, size) = indexed-lengths entry others n 0 in
    let made =
      from_coeffs-rows n (indexed entry others n 0) h.positive
        (omega (arith, size, length-take last ms, count, some_other)) lengths in
    let guarded : not (leb (length ms) 1 || not (length rows == length ms)) ≡ true =
      rw ((==_iff (length rows) (length ms)).1 h.counted) (ground (arith, count, some_other)) in
    let position : length ms - 1 ≡ last = omega (arith, count) in
    let word = subst IsU64 known (modulus-bounds ms last w (omega (arith, count))) in
    let below = subst (λ (q : ℕ). residue_at rows last i < q) known below' in
    let q = modulus_at ms j in
    let fermat' = subst (λ (x : ℕ). (x % q) ^ (q - 1) % q ≡ 1) known fermat'' in
    let word' = modulus-bounds ms j w (omega (arith, k, count)) in
    let c_t_value : residue_at c_t 0 i ≡ crt_value rows ms i % t.value =
      table-residue_at f (t ∷ []) n 0 i (omega arith) l in
    let correction =
      switch_correction m_last.value t.value (residue_at rows last i) (residue_at c_t 0 i) in
    let own =
      indexed-residue_at entry others n 0 j i (omega (arith, length-take last ms, count, k)) l
      ∙ ap₂ (λ (a b : ℕ). entry a b i) (Nat.zero-add j) (modulus_at-take ms last j k) in
    rw known (
      record { degree = n; coeffs = indexed entry others n 0 },
      correction,
      rw (guarded, position, got, extended, run) made,
      subst (λ (x : ℕ). IsCorrection m_last.value t.value (residue_at rows last i) x correction)
          c_t_value
          (switch_correction_lem m_last.value t.value (residue_at rows last i) (residue_at c_t 0 i)
            large wt word below
            (subst (λ (x : ℕ). (x % t.value) ^ (t.value - 1) % t.value ≡ 1) known fermat)),
      ap (λ (c : ℕ). c * m_last.value % q) own
          ∙ (switch_residue_lem m_last.value correction q (residue_at rows j i) large' word'
              fermat').1,
    )
