-- ===== src/Ring/Context.antt =====
-- crates/phantom-ring/src/ring.rs: the ring context and its operations on polynomials. A loop
-- over `0..degree` of each component is a recursion on the rounds; a component that is shorter
-- panics, and what a longer one has beyond the degree is kept.
pub mod Rows
pub mod RowLaws
pub mod WellFormed
pub mod Additive
pub mod Product
pub mod Galois
mod Tests
use phantom_fhe.Base.{
  ℕ, zero, suc, ◌+◌, ◌-◌, ◌*◌, ◌%◌, Bool, true, false, not, ◌&&◌, ◌||◌, List, [], ◌∷◌, map, Option,
  none, some, Result, ok, err, panic, ◌>>=◌, ◌>>◌, guard, to_option, if◌then◌else◌, ltb, ◌==◌,
  length, set, index, replicate, u64, or_panic,
}
use phantom_fhe.Ring.Error.{
  RingError, dimension_mismatch, invalid_ntt_modulus, invalid_automorphism_element,
}
use phantom_fhe.Ring.Types.{Degree, Modulus, supports_ntt}
use phantom_fhe.Ring.Poly.{Poly, poly_zero, moduli_count}
use phantom_fhe.Ring.Reduce.{add_mod, sub_mod, neg_mod, mul_mod}
use phantom_fhe.Ring.Barrett.{BarrettReducer, barrett_new, reduce}
use phantom_fhe.Ring.Ntt.{NttTable, ntt_table_new}
use phantom_fhe.Ring.Ntt.Transform.{forward_transform_in_place, inverse_transform_in_place}
use phantom_fhe.Ring.Gcd.{gcd}

pub record Ring : Type 0 where
  pub degree : Degree
  pub moduli : List Modulus
  pub reducers : List (Option BarrettReducer)
  pub ntt_tables : List (Option NttTable)

unfoldable pub ring_new : Degree → List Modulus → Result RingError Ring
ring_new degree [] = err dimension_mismatch
ring_new degree (m ∷ ms) = ok (record {
  degree = degree;
  moduli = m ∷ ms;
  reducers = map (λ modulus. to_option (barrett_new modulus.value)) (m ∷ ms);
  ntt_tables = map (λ modulus. to_option (ntt_table_new degree.get modulus)) (m ∷ ms);
})

unfoldable pub check_ntt : ℕ → List Modulus → Result RingError (Unit {0})
check_ntt n [] = ok tt
check_ntt n (m ∷ ms) = do
  guard (supports_ntt m n) (invalid_ntt_modulus m.value (u64 (2 * n)))
  check_ntt n ms

unfoldable pub ring_new_ntt : Degree → List Modulus → Result RingError Ring
ring_new_ntt degree moduli = do check_ntt degree.get moduli; ring_new degree moduli

unfoldable pub ring_zero : Ring → Poly
ring_zero r = poly_zero r.degree.get (length r.moduli)

unfoldable pub check_poly : Ring → Poly → Result RingError (Unit {0})
unfolding moduli_count
check_poly r p =
    guard (p.degree == r.degree.get && moduli_count p == length r.moduli) dimension_mismatch

-- `mul_residue` at a modulus and its reducer.
unfoldable pub residue_product : Modulus → Option BarrettReducer → ℕ → ℕ → Result RingError ℕ
residue_product modulus none a b = ok (mul_mod a b modulus.value)
residue_product modulus (some reducer) a b =
    if ltb a modulus.value && ltb b modulus.value
    then reduce reducer (a * b)
    else ok (mul_mod a b modulus.value)

unfoldable pub mul_residue : Ring → ℕ → ℕ → ℕ → Result RingError ℕ
mul_residue r j a b = do
  modulus ← index r.moduli j
  reducer ← index r.reducers j
  residue_product modulus reducer a b

-- The first `rounds` entries of one component, written over those of the first.
unfoldable pub zip_row : (ℕ → ℕ → ℕ) → ℕ → List ℕ → List ℕ → Result RingError (List ℕ)
zip_row f zero xs ys = ok xs
zip_row f (suc rounds) [] ys = panic
zip_row f (suc rounds) (x ∷ xs) [] = panic
zip_row f (suc rounds) (x ∷ xs) (y ∷ ys) = do rest ← zip_row f rounds xs ys; ok (f x y ∷ rest)

unfoldable pub zip_rows :
    (ℕ → ℕ → ℕ → ℕ)
    → ℕ
    → List Modulus
    → List (List ℕ)
    → List (List ℕ)
    → Result RingError (List (List ℕ))
zip_rows f n [] xs ys = ok xs
zip_rows f n (m ∷ ms) [] ys = panic
zip_rows f n (m ∷ ms) (x ∷ xs) [] = panic
zip_rows f n (m ∷ ms) (x ∷ xs) (y ∷ ys) = do
  row ← zip_row (λ a b. f a b m.value) n x y
  rest ← zip_rows f n ms xs ys
  ok (row ∷ rest)

unfoldable pub add_assign : Ring → Poly → Poly → Result RingError Poly
add_assign r lhs rhs = do
  check_poly r lhs
  check_poly r rhs
  coeffs ← zip_rows add_mod r.degree.get r.moduli lhs.coeffs rhs.coeffs
  ok (record lhs { coeffs = coeffs })

unfoldable pub ring_add : Ring → Poly → Poly → Result RingError Poly
ring_add r lhs rhs = add_assign r lhs rhs

unfoldable pub sub_assign : Ring → Poly → Poly → Result RingError Poly
sub_assign r lhs rhs = do
  check_poly r lhs
  check_poly r rhs
  coeffs ← zip_rows sub_mod r.degree.get r.moduli lhs.coeffs rhs.coeffs
  ok (record lhs { coeffs = coeffs })

unfoldable pub ring_sub : Ring → Poly → Poly → Result RingError Poly
ring_sub r lhs rhs = sub_assign r lhs rhs

-- `for coeff in &mut coeffs[j]`, for each modulus.
unfoldable pub map_rows :
    (ℕ → ℕ → ℕ) → List Modulus → List (List ℕ) → Result RingError (List (List ℕ))
map_rows f [] xs = ok xs
map_rows f (m ∷ ms) [] = panic
map_rows f (m ∷ ms) (x ∷ xs) = do rest ← map_rows f ms xs; ok (map (λ a. f a m.value) x ∷ rest)

unfoldable pub neg_assign : Ring → Poly → Result RingError Poly
neg_assign r p = do
  check_poly r p
  coeffs ← map_rows neg_mod r.moduli p.coeffs
  ok (record p { coeffs = coeffs })

unfoldable pub ring_neg : Ring → Poly → Result RingError Poly
ring_neg r p = neg_assign r p
