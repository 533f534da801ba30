-- ===== src/Ring/Rns.antt =====
-- crates/phantom-ring/src/rns/basis.rs and extension.rs: residue bases, and the exact value that
-- residues stand for, on big integers.
pub mod Constants
pub mod Value
pub mod Cofactors
pub mod Residues
pub mod Rescale
pub mod Rounding
pub mod Values
pub mod Scaling
pub mod Decoding
pub mod Switching
pub mod Centered
pub mod Crt
pub mod CenteredValue
pub mod Down
pub mod ModDown
pub mod SwitchDown
mod Tests
mod RescaleTests
use phantom_fhe.Base.{
  ℕ, zero, suc, ◌+◌, Ordering, List, [], ◌∷◌, Result, ok, err, panic, ◌>>=◌, ◌>>◌, guard, ◌==◌,
  index, length,
}
use phantom_fhe.Ring.Error.{RingError, dimension_mismatch}
use phantom_fhe.Ring.Types.{Modulus}
use phantom_fhe.Ring.Poly.{Poly, moduli_count, from_coeffs}
use phantom_fhe.Ring.Reduce.{mul_mod, inv_mod}
use phantom_fhe.Ring.BigUint
use phantom_fhe.Ring.BigUint.{BigUint}

pub record RnsBasis : Type 0 where
  pub moduli : List Modulus

unfoldable pub basis_new : List Modulus → Result RingError RnsBasis
basis_new [] = err dimension_mismatch
basis_new (m ∷ ms) = ok record { moduli = m ∷ ms }

-- The fold of `mul_u64` over the moduli.
unfoldable pub product_from : BigUint → List Modulus → BigUint
product_from acc [] = acc
product_from acc (m ∷ ms) = product_from (BigUint.mul_u64 acc m.value) ms

unfoldable pub basis_product : List Modulus → BigUint
basis_product ms = product_from (BigUint.from_u64 1) ms

-- `M_i` and `y_i`; a release build does not check that the division is exact.
unfoldable pub crt_constant : BigUint → Modulus → Result RingError (BigUint × ℕ)
crt_constant big_q m = do
  (m_i, _) ← BigUint.divmod_u64 big_q m.value
  (_, m_i_mod_qi) ← BigUint.divmod_u64 m_i m.value
  ok (m_i, inv_mod m_i_mod_qi m.value)

unfoldable pub crt_constants : BigUint → List Modulus → Result RingError (List (BigUint × ℕ))
crt_constants big_q [] = ok []
crt_constants big_q (m ∷ ms) = do
  constant ← crt_constant big_q m
  rest ← crt_constants big_q ms
  ok (constant ∷ rest)

-- The sum of one coefficient's terms, over the components in their order.
unfoldable pub combine :
    List (List ℕ) → List Modulus → List (BigUint × ℕ) → ℕ → BigUint → Result RingError BigUint
combine rows [] constants i t = ok t
combine [] (m ∷ ms) constants i t = err dimension_mismatch
combine (row ∷ rows) (m ∷ ms) [] i t = panic
combine (row ∷ rows) (m ∷ ms) (constant ∷ constants) i t = do
  residue ← index row i
  combine rows ms constants i
      (BigUint.add t (BigUint.mul_u64 constant.0 (mul_mod residue constant.1 m.value)))

-- `while t >= big_q { t = t - big_q }`
unfoldable pub subtract_while : ℕ → BigUint → BigUint → Result RingError BigUint
subtract_while zero t big_q = panic
subtract_while (suc fuel) t big_q =
    let rest = subtract_while fuel (BigUint.sub t big_q) big_q in
    elim (BigUint.cmp t big_q) [ Ordering.lt ↦ ok t | Ordering.eq ↦ rest | Ordering.gt ↦ rest ]

-- One coefficient; a subtraction for each component is enough.
unfoldable pub true_value :
    List (List ℕ) → List Modulus → List (BigUint × ℕ) → BigUint → ℕ → Result RingError BigUint
true_value rows ms constants big_q i = do
  t ← combine rows ms constants i BigUint.big_zero
  subtract_while (suc (length ms)) t big_q

-- `for i in i..i + rounds`
unfoldable pub true_values :
    List (List ℕ)
    → List Modulus
    → List (BigUint × ℕ)
    → BigUint
    → ℕ
    → ℕ
    → Result RingError (List BigUint)
true_values rows ms constants big_q zero i = ok []
true_values rows ms constants big_q (suc rounds) i = do
  value ← true_value rows ms constants big_q i
  rest ← true_values rows ms constants big_q rounds (i + 1)
  ok (value ∷ rest)

unfoldable pub reconstruct_true_values : Poly → RnsBasis → Result RingError (BigUint × List BigUint)
reconstruct_true_values poly source = do
  guard (moduli_count poly == length source.moduli) dimension_mismatch
  constants ← crt_constants (basis_product source.moduli) source.moduli
  values ←
      true_values poly.coeffs source.moduli constants (basis_product source.moduli) poly.degree 0
  ok (basis_product source.moduli, values)

-- One component of the result: every value's residue.
unfoldable pub residue_row : Modulus → List BigUint → Result RingError (List ℕ)
residue_row m [] = ok []
residue_row m (value ∷ values) = do
  (_, residue) ← BigUint.divmod_u64 value m.value
  rest ← residue_row m values
  ok (residue ∷ rest)

unfoldable pub residue_rows : List Modulus → List BigUint → Result RingError (List (List ℕ))
residue_rows [] values = ok []
residue_rows (m ∷ ms) values = do
  row ← residue_row m values
  rows ← residue_rows ms values
  ok (row ∷ rows)

unfoldable pub extend_basis : Poly → RnsBasis → RnsBasis → Result RingError Poly
extend_basis poly source target = do
  (_, values) ← reconstruct_true_values poly source
  coeffs ← residue_rows target.moduli values
  from_coeffs coeffs
