-- ===== src/Ring/Rns/Centered.antt =====
-- crates/phantom-ring/src/rns/extension.rs: values as signed numbers, and the constants of a basis.
use phantom_fhe.Base.{
  ℕ, suc, ◌-◌, ◌%◌, ◌^◌, not, ltb, if◌then◌else◌, List, [], ◌∷◌, map, Result, ok, ◌>>=◌, ◌>>◌,
  guard, ok_or, index, length, u64,
}
use phantom_fhe.Base.Signed.{ℤ, pos, negsuc, opposite, to_i128}
use phantom_fhe.Ring.Error.{RingError, dimension_mismatch, crt_overflow}
use phantom_fhe.Ring.Types.{Modulus}
use phantom_fhe.Ring.Poly.{Poly, from_coeffs}
use phantom_fhe.Ring.Reduce.{mul_mod, inv_mod}
use phantom_fhe.Ring.BigUint
use phantom_fhe.Ring.BigUint.{BigUint}
use phantom_fhe.Ring.Rns.{RnsBasis, basis_product, reconstruct_true_values}
use phantom_fhe.Ring.Rns.Rescale.{is_negative, centered_magnitude}

-- A big integer's residue modulo each of the targets.
unfoldable pub residues_of : BigUint → List Modulus → Result RingError (List ℕ)
residues_of value [] = ok []
residues_of value (t ∷ ts) = do
  (_, residue) ← BigUint.divmod_u64 value t.value
  rest ← residues_of value ts
  ok (residue ∷ rest)

unfoldable pub crt_basis_constant : RnsBasis → ℕ → List Modulus → Result RingError (List ℕ)
crt_basis_constant source i targets = do
  guard (ltb i (length source.moduli)) dimension_mismatch
  q ← index source.moduli i
  (m_i, _) ← BigUint.divmod_u64 (basis_product source.moduli) q.value
  residues_of m_i targets

unfoldable pub lift_residues : BigUint → ℕ → List Modulus → Result RingError (List ℕ)
lift_residues m_i y_i [] = ok []
lift_residues m_i y_i (t ∷ ts) = do
  (_, m_i_mod_t) ← BigUint.divmod_u64 m_i t.value
  rest ← lift_residues m_i y_i ts
  ok (mul_mod m_i_mod_t y_i t.value ∷ rest)

unfoldable pub crt_lift_constant : RnsBasis → ℕ → List Modulus → Result RingError (List ℕ)
crt_lift_constant source i targets = do
  guard (ltb i (length source.moduli)) dimension_mismatch
  q ← index source.moduli i
  (m_i, _) ← BigUint.divmod_u64 (basis_product source.moduli) q.value
  (_, m_i_mod_qi) ← BigUint.divmod_u64 m_i q.value
  lift_residues m_i (inv_mod m_i_mod_qi q.value) targets

unfoldable pub floor_divide_residues : RnsBasis → ℕ → Result RingError (List ℕ)
floor_divide_residues basis divisor = do
  (quotient, _) ← BigUint.divmod_u64 (basis_product basis.moduli) divisor
  residues_of quotient basis.moduli

-- `i128::rem_euclid`
unfoldable pub rem_euclid : ℤ → ℕ → ℕ
rem_euclid (pos n) q = n % q
rem_euclid (negsuc n) q = q - suc (n % q)

unfoldable pub embed_rows : List ℤ → List Modulus → List (List ℕ)
embed_rows coeffs [] = []
embed_rows coeffs (m ∷ ms) =
    map (λ value. u64 (rem_euclid value m.value)) coeffs ∷ embed_rows coeffs ms

unfoldable pub embed_centered_coeffs : List ℤ → List Modulus → Result RingError Poly
embed_centered_coeffs coeffs moduli = from_coeffs (embed_rows coeffs moduli)

unfoldable pub centered_value : BigUint → BigUint → Result RingError ℤ
centered_value big_q value = do
  magnitude ← ok_or (BigUint.checked_to_u128 (centered_magnitude big_q value)) crt_overflow
  guard (not (ltb (2 ^ 127 - 1) magnitude)) crt_overflow
  ok (if is_negative big_q value then opposite (to_i128 magnitude) else to_i128 magnitude)

unfoldable pub centered_values : BigUint → List BigUint → Result RingError (List ℤ)
centered_values big_q [] = ok []
centered_values big_q (value ∷ values) = do
  centered ← centered_value big_q value
  rest ← centered_values big_q values
  ok (centered ∷ rest)

unfoldable pub reconstruct_centered_values : Poly → RnsBasis → Result RingError (List ℤ)
reconstruct_centered_values poly source = do
  (big_q, values) ← reconstruct_true_values poly source
  centered_values big_q values

unfoldable pub extend_basis_centered : Poly → RnsBasis → RnsBasis → Result RingError Poly
extend_basis_centered poly source target = do
  centered ← reconstruct_centered_values poly source
  embed_centered_coeffs centered target.moduli
