-- ===== src/Ring/Context/Product.antt =====
-- The products and the automorphisms of crates/phantom-ring/src/ring.rs.
use phantom_fhe.Base.{
  ℕ, zero, suc, ◌+◌, ◌-◌, ◌*◌, ◌%◌, List, [], ◌∷◌, Option, none, some, Result, ok, err, panic,
  ◌>>=◌, ◌>>◌, guard, if◌then◌else◌, ltb, ◌==◌, length, set, index, replicate, u64,
}
use phantom_fhe.Ring.Error.{RingError, invalid_automorphism_element}
use phantom_fhe.Ring.Types.{Modulus}
use phantom_fhe.Ring.Poly.{Poly}
use phantom_fhe.Ring.Reduce.{add_mod, sub_mod, neg_mod}
use phantom_fhe.Ring.Ntt.{NttTable}
use phantom_fhe.Ring.Ntt.Transform.{forward_transform_in_place, inverse_transform_in_place}
use phantom_fhe.Ring.Gcd.{gcd}
use phantom_fhe.Ring.Context.{Ring, ring_zero, check_poly, mul_residue}

unfoldable pub scale_row : Ring → ℕ → ℕ → List ℕ → Result RingError (List ℕ)
scale_row r j scalar [] = ok []
scale_row r j scalar (x ∷ xs) = do
  y ← mul_residue r j x scalar
  rest ← scale_row r j scalar xs
  ok (y ∷ rest)

unfoldable pub scale_rows :
    Ring → ℕ → ℕ → List Modulus → List (List ℕ) → Result RingError (List (List ℕ))
scale_rows r scalar j [] xs = ok xs
scale_rows r scalar j (m ∷ ms) [] = panic
scale_rows r scalar j (m ∷ ms) (x ∷ xs) = do
  row ← scale_row r j (scalar % m.value) x
  rest ← scale_rows r scalar (j + 1) ms xs
  ok (row ∷ rest)

unfoldable pub scalar_mul : Ring → Poly → ℕ → Result RingError Poly
scalar_mul r p scalar = do
  check_poly r p
  coeffs ← scale_rows r scalar 0 r.moduli p.coeffs
  ok (record p { coeffs = coeffs })

-- `out[i] = mul_residue(j, xs[i], ys[i])` for `i` in `i..i + rounds`.
unfoldable pub product_row : Ring → ℕ → List ℕ → List ℕ → ℕ → ℕ → List ℕ → Result RingError (List ℕ)
product_row r j xs ys zero i out = ok out
product_row r j xs ys (suc rounds) i out = do
  x ← index xs i
  y ← index ys i
  z ← mul_residue r j x y
  product_row r j xs ys rounds (i + 1) (set out i z)

-- One step of a loop `for j in j..j + rounds` that fills a component of `out`.
unfoldable pub fill_components :
    (ℕ → List ℕ → List ℕ → List ℕ → Result RingError (List ℕ))
    → Poly
    → Poly
    → ℕ
    → ℕ
    → Poly
    → Result RingError Poly
fill_components step lhs rhs zero j out = ok out
fill_components step lhs rhs (suc rounds) j out = do
  x ← index lhs.coeffs j
  y ← index rhs.coeffs j
  z ← index out.coeffs j
  row ← step j x y z
  fill_components step lhs rhs rounds (j + 1) (record out { coeffs = set out.coeffs j row })

unfoldable pub coeffwise_mul : Ring → Poly → Poly → Result RingError Poly
coeffwise_mul r lhs rhs = do
  check_poly r lhs
  check_poly r rhs
  fill_components (λ j x y out. product_row r j x y r.degree.get 0 out) lhs rhs (length r.moduli) 0
      (ring_zero r)

-- The inner loop of the schoolbook product, at `a` and for `b` in `b..b + rounds`.
unfoldable pub school_row :
    Ring → ℕ → ℕ → ℕ → List ℕ → ℕ → ℕ → ℕ → ℕ → List ℕ → Result RingError (List ℕ)
school_row r j n q ys x a zero b out = ok out
school_row r j n q ys x a (suc rounds) b out = do
  y ← index ys b
  prod ← mul_residue r j x y
  let idx = if ltb (a + b) n then a + b else a + b - n
  old ← index out idx
  let new = if ltb (a + b) n then add_mod old prod q else sub_mod old prod q
  school_row r j n q ys x a rounds (b + 1) (set out idx new)

unfoldable pub school_rows :
    Ring → ℕ → ℕ → ℕ → List ℕ → List ℕ → ℕ → ℕ → List ℕ → Result RingError (List ℕ)
school_rows r j n q xs ys zero a out = ok out
school_rows r j n q xs ys (suc rounds) a out = do
  x ← index xs a
  next ← school_row r j n q ys x a n 0 out
  school_rows r j n q xs ys rounds (a + 1) next

unfoldable pub schoolbook_mul_component :
    Ring → ℕ → List ℕ → List ℕ → List ℕ → Result RingError (List ℕ)
schoolbook_mul_component r j xs ys out = do
  modulus ← index r.moduli j
  school_rows r j r.degree.get modulus.value xs ys r.degree.get 0 out

unfoldable pub schoolbook_mul : Ring → Poly → Poly → Result RingError Poly
schoolbook_mul r lhs rhs = do
  check_poly r lhs
  check_poly r rhs
  fill_components (schoolbook_mul_component r) lhs rhs (length r.moduli) 0 (ring_zero r)

-- `out.copy_from_slice(input)` panics on a different length, then the transform runs on the copy.
unfoldable pub forward_component_into : List ℕ → NttTable → List ℕ → Result RingError (List ℕ)
forward_component_into input table out =
    if length input == length out then forward_transform_in_place input table else panic

-- The transform path where the modulus has a table, and the schoolbook path where it has none.
unfoldable pub mul_component :
    Ring → ℕ → Option NttTable → List ℕ → List ℕ → List ℕ → Result RingError (List ℕ)
mul_component r j none xs ys out = schoolbook_mul_component r j xs ys out
mul_component r j (some table) xs ys out = do
  a ← forward_component_into xs table out
  scratch ← forward_component_into ys table (replicate r.degree.get 0)
  b ← product_row r j a scratch r.degree.get 0 a
  inverse_transform_in_place b table

unfoldable pub ring_mul : Ring → Poly → Poly → Result RingError Poly
ring_mul r lhs rhs = do
  check_poly r lhs
  check_poly r rhs
  fill_components (λ j x y out. do table ← index r.ntt_tables j; mul_component r j table x y out)
      lhs rhs (length r.moduli) 0 (ring_zero r)

-- `for i in i..i + rounds`: coefficient `i` goes to `i * k` modulo `2 n`, negated past `n`. The
-- products `i * k` and `2 * n` wrap around.
unfoldable pub permute_row : ℕ → ℕ → ℕ → List ℕ → ℕ → ℕ → List ℕ → Result RingError (List ℕ)
permute_row n q k xs zero i out = ok out
permute_row n q k xs (suc rounds) i out = do
  c ← index xs i
  let m = u64 (i * k) % u64 (2 * n)
  let place = if ltb m n then m else m - n
  _ ← index out place
  permute_row n q k xs rounds (i + 1) (set out place (if ltb m n then c else neg_mod c q))

unfoldable pub permute_rows :
    ℕ → ℕ → List Modulus → List (List ℕ) → List (List ℕ) → Result RingError (List (List ℕ))
permute_rows n k [] xs outs = ok outs
permute_rows n k (m ∷ ms) [] outs = panic
permute_rows n k (m ∷ ms) (x ∷ xs) [] = panic
permute_rows n k (m ∷ ms) (x ∷ xs) (out ∷ outs) = do
  row ← permute_row n m.value k x n 0 out
  rest ← permute_rows n k ms xs outs
  ok (row ∷ rest)

-- `k % 2 == 0 || gcd(k % two_n, two_n) != 1`, where a remainder by 0 panics.
unfoldable pub check_element : ℕ → ℕ → Result RingError (Unit {0})
check_element k two_n =
    if k % 2 == 0
    then err (invalid_automorphism_element k two_n)
    else if two_n == 0
    then panic
    else guard (gcd (k % two_n) two_n == 1) (invalid_automorphism_element k two_n)

unfoldable pub apply_automorphism : Ring → Poly → ℕ → Result RingError Poly
apply_automorphism r p k = do
  check_poly r p
  let n = r.degree.get
  check_element k (u64 (2 * n))
  coeffs ← permute_rows n k r.moduli p.coeffs (ring_zero r).coeffs
  ok (record (ring_zero r) { coeffs = coeffs })
