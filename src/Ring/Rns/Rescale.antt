-- ===== src/Ring/Rns/Rescale.antt =====
-- crates/phantom-ring/src/rns/rescale.rs: going down a level, modulus switching and scaled rounding.
use phantom_fhe.Base.{
  ℕ, ◌+◌, ◌-◌, ◌*◌, ◌%◌, Bool, true, false, not, ◌||◌, ◌==◌, leb, if◌then◌else◌, Ordering, List, [],
  ◌∷◌, ◌++◌, Result, ok, ◌>>=◌, ◌>>◌, guard, index, collect, length, take, drop, u64, u128,
}
use phantom_fhe.Ring.Error.{RingError, dimension_mismatch}
use phantom_fhe.Ring.Types.{Modulus}
use phantom_fhe.Ring.Poly.{Poly, moduli_count, from_coeffs}
use phantom_fhe.Ring.Reduce.{add_mod, sub_mod, neg_mod, mul_mod, inv_mod}
use phantom_fhe.Ring.BigUint
use phantom_fhe.Ring.BigUint.{BigUint}
use phantom_fhe.Ring.BigUint.Bits.{divmod, is_less}
use phantom_fhe.Ring.Rns.{RnsBasis, basis_new, basis_product, reconstruct_true_values, extend_basis}

unfoldable pub drop_last_modulus : Poly → Result RingError Poly
drop_last_modulus poly = do
  guard (not (leb (moduli_count poly) 1)) dimension_mismatch
  from_coeffs (take (moduli_count poly - 1) poly.coeffs)

-- `poly.coeffs()[j][i]`
unfoldable pub coeff_at : List (List ℕ) → ℕ → ℕ → Result RingError ℕ
coeff_at rows j i = do row ← index rows j; index row i

unfoldable pub mod_down_cell : List (List ℕ) → List (List ℕ) → ℕ → ℕ → ℕ → ℕ → Result RingError ℕ
mod_down_cell rows p_mod_q q p_inv j i = do
  x_i ← coeff_at rows j i
  p_mod_q_i ← coeff_at p_mod_q j i
  ok (mul_mod (sub_mod x_i p_mod_q_i q) p_inv q)

-- The components from index `j` on.
unfoldable pub mod_down_rows :
    List (List ℕ)
    → List (List ℕ)
    → BigUint
    → ℕ
    → List Modulus
    → ℕ
    → Result RingError (List (List ℕ))
mod_down_rows rows p_mod_q big_p degree [] j = ok []
mod_down_rows rows p_mod_q big_p degree (q ∷ qs) j = do
  (_, p_mod_qj) ← BigUint.divmod_u64 big_p q.value
  row ← collect (mod_down_cell rows p_mod_q q.value (inv_mod p_mod_qj q.value) j) degree 0
  rest ← mod_down_rows rows p_mod_q big_p degree qs (j + 1)
  ok (row ∷ rest)

unfoldable pub mod_down : Poly → RnsBasis → RnsBasis → Result RingError Poly
mod_down poly q_basis p_basis = do
  guard (moduli_count poly == length q_basis.moduli + length p_basis.moduli) dimension_mismatch
  p_part ← from_coeffs (drop (length q_basis.moduli) poly.coeffs)
  p_mod_q ← extend_basis p_part p_basis q_basis
  rows ←
      mod_down_rows poly.coeffs p_mod_q.coeffs (basis_product p_basis.moduli) poly.degree
        q_basis.moduli 0
  from_coeffs rows

-- What a coefficient is made divisible by the last modulus with, from its last residue and its
-- residue modulo t.
unfoldable pub switch_correction : ℕ → ℕ → ℕ → ℕ → ℕ
switch_correction q_last t c_qlast c_t =
    let a1 = neg_mod c_qlast q_last in
    let target_t = mul_mod c_t ((q_last - 1) % t) t in
    let k = mul_mod (sub_mod target_t (a1 % t) t) (inv_mod (q_last % t) t) t in
    u128 (a1 + u128 (q_last * k))

unfoldable pub switch_residue : ℕ → ℕ → ℕ → ℕ → ℕ
switch_residue q_last correction qj c_qj =
    mul_mod (add_mod c_qj (u64 (correction % qj)) qj) (inv_mod (q_last % qj) qj) qj

unfoldable pub switch_cell :
    List (List ℕ) → List (List ℕ) → ℕ → ℕ → ℕ → ℕ → ℕ → ℕ → Result RingError ℕ
switch_cell rows c_t_rows last q_last t qj j i = do
  c_qlast ← coeff_at rows last i
  c_t ← coeff_at c_t_rows 0 i
  c_qj ← coeff_at rows j i
  ok (switch_residue q_last (switch_correction q_last t c_qlast c_t) qj c_qj)

unfoldable pub switch_rows :
    List (List ℕ)
    → List (List ℕ)
    → ℕ
    → ℕ
    → ℕ
    → ℕ
    → List Modulus
    → ℕ
    → Result RingError (List (List ℕ))
switch_rows rows c_t_rows last q_last t degree [] j = ok []
switch_rows rows c_t_rows last q_last t degree (qj ∷ qs) j = do
  row ← collect (switch_cell rows c_t_rows last q_last t qj.value j) degree 0
  rest ← switch_rows rows c_t_rows last q_last t degree qs (j + 1)
  ok (row ∷ rest)

unfoldable pub modulus_switch_down : Poly → RnsBasis → Modulus → Result RingError Poly
modulus_switch_down poly q_basis t = do
  guard (not (leb (length q_basis.moduli) 1 || not (moduli_count poly == length q_basis.moduli)))
      dimension_mismatch
  let last = length q_basis.moduli - 1
  q_last ← index q_basis.moduli last
  t_basis ← basis_new (t ∷ [])
  c_t_poly ← extend_basis poly q_basis t_basis
  rows ←
      switch_rows poly.coeffs c_t_poly.coeffs last q_last.value t.value poly.degree
        (take last q_basis.moduli) 0
  from_coeffs rows

-- Whether a value stands for a negative number: twice the value is `Greater` than the modulus.
unfoldable pub is_negative : BigUint → BigUint → Bool
is_negative big_q value = elim (BigUint.cmp (BigUint.mul_u64 value 2) big_q) [
  | Ordering.gt ↦ true
  | Ordering.lt ↦ false
  | Ordering.eq ↦ false
]

unfoldable pub centered_magnitude : BigUint → BigUint → BigUint
centered_magnitude big_q value = if is_negative big_q value then BigUint.sub big_q value else value

-- The nearest integer to `magnitude * t / big_q`, a half going up.
unfoldable pub scale_round : BigUint → ℕ → BigUint → Result RingError BigUint
scale_round big_q t magnitude = do
  (quotient, remainder) ← divmod (BigUint.mul_u64 magnitude t) big_q
  ok (
      if not (is_less (BigUint.cmp (BigUint.mul_u64 remainder 2) big_q))
      then BigUint.add quotient (BigUint.from_u64 1)
      else quotient)

-- The residue of a rounded value, or of its opposite.
unfoldable pub signed_residue : Bool → BigUint → ℕ → Result RingError ℕ
signed_residue negative rounded q = do
  (_, residue) ← BigUint.divmod_u64 rounded q
  ok (if negative then neg_mod residue q else residue)

unfoldable pub rounded_residue : BigUint → BigUint → ℕ → ℕ → BigUint → Result RingError ℕ
rounded_residue big_qp big_q t q value = do
  rounded ← scale_round big_q t (centered_magnitude big_qp value)
  signed_residue (is_negative big_qp value) rounded q

unfoldable pub rounded_row : BigUint → BigUint → ℕ → ℕ → List BigUint → Result RingError (List ℕ)
rounded_row big_qp big_q t q [] = ok []
rounded_row big_qp big_q t q (value ∷ values) = do
  residue ← rounded_residue big_qp big_q t q value
  rest ← rounded_row big_qp big_q t q values
  ok (residue ∷ rest)

unfoldable pub rounded_rows :
    BigUint → BigUint → ℕ → List Modulus → List BigUint → Result RingError (List (List ℕ))
rounded_rows big_qp big_q t [] values = ok []
rounded_rows big_qp big_q t (q ∷ qs) values = do
  row ← rounded_row big_qp big_q t q.value values
  rest ← rounded_rows big_qp big_q t qs values
  ok (row ∷ rest)

unfoldable pub rescale_and_round : Poly → RnsBasis → RnsBasis → Modulus → Result RingError Poly
rescale_and_round poly q_basis p_basis t = do
  guard (moduli_count poly == length q_basis.moduli + length p_basis.moduli) dimension_mismatch
  qp_basis ← basis_new (q_basis.moduli ++ p_basis.moduli)
  (big_qp, values) ← reconstruct_true_values poly qp_basis
  rows ← rounded_rows big_qp (basis_product q_basis.moduli) t.value q_basis.moduli values
  from_coeffs rows

unfoldable pub decode_scaled_value : Poly → RnsBasis → Modulus → Result RingError (List ℕ)
decode_scaled_value poly basis t = do
  guard (moduli_count poly == length basis.moduli) dimension_mismatch
  (big_q, values) ← reconstruct_true_values poly basis
  rounded_row big_q big_q t.value t.value values
