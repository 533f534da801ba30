-- ===== src/Ring/Rns/Crt.antt =====
-- crates/phantom-ring/src/rns/crt.rs: reconstruction on 128-bit numbers. The products wrap, as in
-- a release build.
use phantom_fhe.Base.{
  ℕ, ◌+◌, ◌*◌, ◌/◌, ◌%◌, ◌^◌, leb, if◌then◌else◌, ◌==◌, List, [], ◌∷◌, map, Option, none, some,
  Result, ok, ◌>>=◌, ◌>>◌, guard, ok_or, index, collect, length, u64, u128,
}
use phantom_fhe.Ring.Error.{RingError, dimension_mismatch, crt_overflow}
use phantom_fhe.Ring.Types.{Modulus}
use phantom_fhe.Ring.Poly.{Poly, moduli_count}
use phantom_fhe.Ring.Reduce.{mul_mod, inv_mod}
use phantom_fhe.Ring.Rns.{RnsBasis}

-- `u128::checked_mul`
unfoldable pub checked_mul : ℕ → ℕ → Option ℕ
checked_mul a b = if leb (2 ^ 128) (a * b) then none else some (a * b)

unfoldable pub checked_product : ℕ → List Modulus → Result RingError ℕ
checked_product product [] = ok product
checked_product product (m ∷ ms) = do
  next ← ok_or (checked_mul product m.value) crt_overflow
  checked_product next ms

-- One term of the sum.
unfoldable pub crt_term : ℕ → ℕ → ℕ → ℕ
crt_term product residue q =
    let partial = product / q in
    let inv = inv_mod (u64 (partial % q)) q in u128 (u128 (residue * partial) * inv) % product

unfoldable pub add_terms : ℕ → List ℕ → List Modulus → ℕ → ℕ
add_terms product [] ms out = out
add_terms product (residue ∷ residues) [] out = out
add_terms product (residue ∷ residues) (m ∷ ms) out =
    add_terms product residues ms (u128 (out + crt_term product residue m.value) % product)

unfoldable pub reconstruct_residue : List ℕ → RnsBasis → Result RingError ℕ
reconstruct_residue residues basis = do
  guard (length residues == length basis.moduli) dimension_mismatch
  product ← checked_product 1 basis.moduli
  ok (add_terms product residues basis.moduli 0)

-- `component[i]` of every component.
unfoldable pub column : List (List ℕ) → ℕ → Result RingError (List ℕ)
column [] i = ok []
column (row ∷ rows) i = do residue ← index row i; rest ← column rows i; ok (residue ∷ rest)

unfoldable pub reconstruct_cell : List (List ℕ) → RnsBasis → ℕ → Result RingError ℕ
reconstruct_cell rows basis i = do residues ← column rows i; reconstruct_residue residues basis

unfoldable pub reconstruct_poly : Poly → RnsBasis → Result RingError (List ℕ)
reconstruct_poly poly basis = do
  guard (moduli_count poly == length basis.moduli) dimension_mismatch
  collect (reconstruct_cell poly.coeffs basis) poly.degree 0

unfoldable pub decompose_value : ℕ → RnsBasis → List ℕ
decompose_value value basis = map (λ q. u64 (value % q.value)) basis.moduli

unfoldable pub mul_residue : ℕ → ℕ → ℕ → ℕ
mul_residue lhs rhs modulus = mul_mod lhs rhs modulus
