-- ===== src/Ring/Rns/Values.antt =====
-- The values of all coefficients of a polynomial.
use phantom_fhe.Base.{
  ℕ, zero, suc, ◌+◌, ◌%◌, ◌<◌, ◌≡◌, refl, sym, ap, ◌∙◌, List, [], ◌∷◌, ok, ok_inj, ==_iff, length,
  tabulate, IsU64, arith,
}
use phantom_fhe.Base.Residues.{mod_unique}
use phantom_fhe.Ring.Types.{Modulus}
use phantom_fhe.Ring.Poly.{Poly, moduli_count}
use phantom_fhe.Ring.BigUint.{BigUint}
use phantom_fhe.Ring.BigUint.Value.{value, IsNormal}
use phantom_fhe.Ring.BigUint.Division.{divmod_u64_lem}
use phantom_fhe.Ring.Rns.{
  RnsBasis, basis_product, crt_constants, true_value, true_values, reconstruct_true_values,
  residue_row,
}
use phantom_fhe.Ring.Rns.Constants.{modulus_product}
use phantom_fhe.Ring.Rns.Value.{crt_sum, HasEntries, AreWords, true_value-IsNormal}

-- Coefficient `i` as a number below the product of the moduli.
abbrev pub crt_value : List (List ℕ) → List Modulus → ℕ → ℕ
crt_value rows ms i = crt_sum rows ms (modulus_product ms) i % modulus_product ms

-- The numbers of the coefficients from index `i` on, in normal form.
abbrev pub AreValues : (ℕ → ℕ) → ℕ → ℕ → List BigUint → Type 0
AreValues g zero i [] = Unit {0}
AreValues g zero i (v ∷ vs) = ⊥
AreValues g (suc n) i [] = ⊥
AreValues g (suc n) i (v ∷ vs) = (value v ≡ g i) × IsNormal v × AreValues g n (i + 1) vs

-- A component for each modulus, with `n` entries from index `i` on.
abbrev HasAll : List (List ℕ) → List Modulus → ℕ → ℕ → Type 0
HasAll rows ms n i = (j : ℕ) → j < i + n → HasEntries j rows ms

module _ (rows : List (List ℕ)) (ms : List Modulus) (w : AreWords ms)
    (constants : List (BigUint × ℕ))
    (made : crt_constants (basis_product ms) ms ≡ ok constants) where
  true_values_lem :
      (n i : ℕ)
      → HasAll rows ms n i
      → (values : List BigUint) × (true_values rows ms constants (basis_product ms) n i ≡ ok values)
        × AreValues (crt_value rows ms) n i values
  unfolding true_values
  true_values_lem zero i h = ([], refl, tt)
  true_values_lem (suc n) i h =
      let (constants', v, made', run, _, exact, normal) =
        true_value-IsNormal rows ms i w (h i (omega arith)) in
      let (values, others, all) = true_values_lem n (i + 1) (λ j l. h j (omega arith)) in
      let same : constants' ≡ constants = ok_inj (sym made' ∙ made) in
      let first : true_value rows ms constants (basis_product ms) i ≡ ok v =
        ap (λ (cs : List (BigUint × ℕ)). true_value rows ms cs (basis_product ms) i) (sym same)
        ∙ run in
      (v ∷ values, rw (first, others) refl, (exact, normal, all))

-- What a polynomial has whose components all have its degree.
pub record IsReadable (poly : Poly) (ms : List Modulus) : Type 0 where
  pub counted : moduli_count poly ≡ length ms
  pub words : AreWords ms
  pub positive : 0 < poly.degree
  pub entries : (i : ℕ) → i < poly.degree → HasEntries i poly.coeffs ms

pub reconstruct_true_values_lem :
    (poly : Poly) (basis : RnsBasis)
    → IsReadable poly basis.moduli
    → (values : List BigUint) × (reconstruct_true_values poly basis
        ≡ ok (basis_product basis.moduli, values))
      × AreValues (crt_value poly.coeffs basis.moduli) poly.degree 0 values
unfolding reconstruct_true_values
reconstruct_true_values_lem poly basis h =
    let (constants, v, made, _, _, _, _) =
      true_value-IsNormal poly.coeffs basis.moduli 0 h.words (h.entries 0 h.positive) in
    let (values, run, all) =
      true_values_lem poly.coeffs basis.moduli h.words constants made poly.degree 0
        (λ j l. h.entries j (omega arith)) in
    (values, rw ((==_iff _ _).1 h.counted, made, run) refl, all)

pub residue_row_lem :
    (g : ℕ → ℕ) (m : Modulus) (n i : ℕ) (values : List BigUint)
    → 0 < m.value
    → IsU64 m.value
    → AreValues g n i values
    → residue_row m values ≡ ok (tabulate (λ j. g j % m.value) n i)
unfolding residue_row
residue_row_lem g m zero i [] pos w h = refl
residue_row_lem g m zero i (v ∷ vs) pos w h = absurd h
residue_row_lem g m (suc n) i [] pos w h = absurd h
residue_row_lem g m (suc n) i (v ∷ vs) pos w (exact, normal, rest) =
    let (q, r, divided, total, below, _) = divmod_u64_lem m.value pos w v normal in
    let same : r ≡ g i % m.value =
      sym (mod_unique (value q) r m.value below) ∙ ap (λ (x : ℕ). x % m.value) (total ∙ exact) in
    rw (divided, residue_row_lem g m n (i + 1) vs pos w rest, same) refl
