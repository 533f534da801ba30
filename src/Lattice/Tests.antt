-- ===== src/Lattice/Tests.antt =====
-- Sums of ciphertexts at fixed inputs.
use phantom_fhe.Base.{ℕ, ◌<◌, ◌≡◌, refl, none, [], ◌∷◌, ok, arith}
use phantom_fhe.Ring.Poly.{Poly}
use phantom_fhe.Ring.Context.{Ring}
use phantom_fhe.Ring.Context.WellFormed.{IsPoly}
use phantom_fhe.Lattice.Types.{RlweCiphertext}
use phantom_fhe.Lattice.Evaluator.{evaluator_add, evaluator_sub}
use phantom_fhe.Lattice.Evaluator.Additive.{IsCiphertext, evaluator_sub-evaluator_add}

-- Degree 2, modulo 17.
abbrev ring_17 : Ring
ring_17 = record {
  degree = record { get = 2 };
  moduli = record { value = 17 } ∷ [];
  reducers = none ∷ [];
  ntt_tables = none ∷ [];
}

abbrev poly_of : ℕ → ℕ → Poly
poly_of a b = record { degree = 2; coeffs = (a ∷ b ∷ []) ∷ [] }

poly_of-IsPoly : (a b : ℕ) → a < 17 → b < 17 → IsPoly ring_17 (poly_of a b)
poly_of-IsPoly a b h k = record { same_degree = refl; rows = ((refl, (h, (k, tt))), tt) }

abbrev fresh : RlweCiphertext
fresh = record { value = poly_of 16 3 ∷ poly_of 0 9 ∷ [] }

abbrev other : RlweCiphertext
other = record { value = poly_of 5 0 ∷ poly_of 1 16 ∷ [] }

fresh-IsCiphertext : IsCiphertext ring_17 fresh
fresh-IsCiphertext = record {
  polys = (
    poly_of-IsPoly 16 3 (omega arith) (omega arith),
    (poly_of-IsPoly 0 9 (omega arith) (omega arith), tt),
  );
  some_poly = omega arith;
}

other-IsCiphertext : IsCiphertext ring_17 other
other-IsCiphertext = record {
  polys = (
    poly_of-IsPoly 5 0 (omega arith) (omega arith),
    (poly_of-IsPoly 1 16 (omega arith) (omega arith), tt),
  );
  some_poly = omega arith;
}

evaluator_sub-evaluator_add_example :
    (sum : RlweCiphertext) × (evaluator_add ring_17 fresh other ≡ ok sum)
    × IsCiphertext ring_17 sum
    × (evaluator_sub ring_17 sum other ≡ ok fresh)
evaluator_sub-evaluator_add_example =
    evaluator_sub-evaluator_add ring_17 fresh other ((omega arith, omega arith), tt)
      fresh-IsCiphertext other-IsCiphertext refl
