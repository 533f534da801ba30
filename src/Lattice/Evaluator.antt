-- ===== src/Lattice/Evaluator.antt =====
-- crates/phantom-lattice/src/rlwe/evaluator.rs and decryptor.rs: the operations that use no
-- evaluation key. The parameters are their ring.
pub mod Additive
use phantom_fhe.Base.{
  ℕ, zero, suc, ◌+◌, not, List, [], ◌∷◌, Result, ok, err, panic, ◌>>=◌, ◌>>◌, guard, ◌==◌, length,
}
use phantom_fhe.Ring.Error.{RingError}
use phantom_fhe.Ring.Poly.{Poly}
use phantom_fhe.Ring.Context.{Ring, check_poly, add_assign, ring_add, ring_sub, ring_neg}
use phantom_fhe.Ring.Context.Product.{ring_mul}
use phantom_fhe.Lattice.Types.{
  LatticeError, ciphertext_mismatch, lift, RlwePlaintext, RlweCiphertext, ciphertext_degree,
  ciphertext_zero,
}

unfoldable pub check_polys : Ring → List Poly → Result LatticeError (Unit {0})
check_polys r [] = ok tt
check_polys r (p ∷ ps) = do lift (check_poly r p); check_polys r ps

unfoldable pub check_ciphertext : Ring → RlweCiphertext → Result LatticeError (Unit {0})
check_ciphertext r ct = do
  guard (not (length ct.value == 0)) ciphertext_mismatch
  check_polys r ct.value

unfoldable pub zip_polys :
    (Poly → Poly → Result RingError Poly) → List Poly → List Poly → Result LatticeError (List Poly)
zip_polys f [] ys = ok []
zip_polys f (x ∷ xs) [] = ok []
zip_polys f (x ∷ xs) (y ∷ ys) = do z ← lift (f x y); zs ← zip_polys f xs ys; ok (z ∷ zs)

unfoldable pub binary_zip :
    Ring
    → RlweCiphertext
    → RlweCiphertext
    → (Ring → Poly → Poly → Result RingError Poly)
    → Result LatticeError RlweCiphertext
binary_zip r lhs rhs f = do
  check_ciphertext r lhs
  check_ciphertext r rhs
  guard (length lhs.value == length rhs.value) ciphertext_mismatch
  value ← zip_polys (f r) lhs.value rhs.value
  ok record { value = value }

unfoldable pub evaluator_add :
    Ring → RlweCiphertext → RlweCiphertext → Result LatticeError RlweCiphertext
evaluator_add r lhs rhs = binary_zip r lhs rhs ring_add

unfoldable pub evaluator_sub :
    Ring → RlweCiphertext → RlweCiphertext → Result LatticeError RlweCiphertext
evaluator_sub r lhs rhs = binary_zip r lhs rhs ring_sub

unfoldable pub neg_polys : Ring → List Poly → Result LatticeError (List Poly)
neg_polys r [] = ok []
neg_polys r (p ∷ ps) = do
  lift (check_poly r p)
  q ← lift (ring_neg r p)
  qs ← neg_polys r ps
  ok (q ∷ qs)

unfoldable pub evaluator_neg : Ring → RlweCiphertext → Result LatticeError RlweCiphertext
evaluator_neg r ct = do value ← neg_polys r ct.value; ok record { value = value }

-- The plaintext is added to the first component.
unfoldable pub add_to_first : Ring → List Poly → Poly → Result LatticeError (List Poly)
add_to_first r [] p = err ciphertext_mismatch
add_to_first r (c ∷ cs) p = do sum ← lift (add_assign r c p); ok (sum ∷ cs)

unfoldable pub add_plain :
    Ring → RlweCiphertext → RlwePlaintext → Result LatticeError RlweCiphertext
add_plain r ct pt = do
  lift (check_poly r pt.value)
  value ← add_to_first r ct.value pt.value
  ok record { value = value }

-- `ring.add_assign(&mut out.value_mut()[k], &term)`, out of range a panic.
unfoldable pub add_at : Ring → List Poly → ℕ → Poly → Result LatticeError (List Poly)
add_at r [] k term = panic
add_at r (c ∷ cs) zero term = do sum ← lift (add_assign r c term); ok (sum ∷ cs)
add_at r (c ∷ cs) (suc k) term = do rest ← add_at r cs k term; ok (c ∷ rest)

-- The inner loop, at `i + j` for `b` at `j`.
unfoldable pub mul_row : Ring → Poly → ℕ → List Poly → List Poly → Result LatticeError (List Poly)
mul_row r a k [] out = ok out
mul_row r a k (b ∷ bs) out = do
  term ← lift (ring_mul r a b)
  next ← add_at r out k term
  mul_row r a (k + 1) bs next

unfoldable pub mul_rows :
    Ring → ℕ → List Poly → List Poly → List Poly → Result LatticeError (List Poly)
mul_rows r i [] rhs out = ok out
mul_rows r i (a ∷ lhs) rhs out = do next ← mul_row r a i rhs out; mul_rows r (i + 1) lhs rhs next

unfoldable pub evaluator_mul :
    Ring → RlweCiphertext → RlweCiphertext → Result LatticeError RlweCiphertext
evaluator_mul r lhs rhs = do
  check_ciphertext r lhs
  check_ciphertext r rhs
  let out = ciphertext_zero r (ciphertext_degree lhs + ciphertext_degree rhs)
  value ← mul_rows r 0 lhs.value rhs.value out.value
  ok record { value = value }

-- The sum of the components under the powers of the secret, the first as it is.
unfoldable pub decrypt_terms : Ring → Poly → List Poly → Poly → Poly → Result LatticeError Poly
decrypt_terms r sk [] sk_power acc = ok acc
decrypt_terms r sk (c ∷ cs) sk_power acc = do
  term ← lift (ring_mul r c sk_power)
  next ← lift (add_assign r acc term)
  power ← lift (ring_mul r sk_power sk)
  decrypt_terms r sk cs power next

unfoldable pub decrypt_first : Ring → Poly → List Poly → Result LatticeError Poly
decrypt_first r sk [] = panic
decrypt_first r sk (c ∷ cs) = decrypt_terms r sk cs sk c

unfoldable pub decrypt : Ring → Poly → RlweCiphertext → Result LatticeError RlwePlaintext
decrypt r sk ct = do
  check_ciphertext r ct
  value ← decrypt_first r sk ct.value
  ok record { value = value }
