-- ===== src/Ring/Poly.antt =====
-- crates/phantom-ring/src/poly.rs: polynomials as one list of coefficients for each modulus.
use phantom_fhe.Base.{
  ℕ, Bool, false, not, ◌||◌, List, [], ◌∷◌, Option, Result, ok, err, if◌then◌else◌, ◌==◌, length,
  get_elem?, replicate,
}
use phantom_fhe.Ring.Error.{RingError, dimension_mismatch}

pub record Poly : Type 0 where
  pub degree : ℕ
  pub coeffs : List (List ℕ)

unfoldable pub poly_zero : ℕ → ℕ → Poly
poly_zero degree moduli_count = record {
  degree = degree;
  coeffs = replicate moduli_count (replicate degree 0);
}

-- `coeffs.first().map_or(0, Vec::len)`
unfoldable pub first_length : List (List ℕ) → ℕ
first_length [] = 0
first_length (c ∷ cs) = length c

-- `coeffs.iter().any(|c| c.len() != degree)`
unfoldable pub any_of_other_length : ℕ → List (List ℕ) → Bool
any_of_other_length degree [] = false
any_of_other_length degree (c ∷ cs) = not (length c == degree) || any_of_other_length degree cs

unfoldable pub from_coeffs : List (List ℕ) → Result RingError Poly
unfolding first_length any_of_other_length
from_coeffs coeffs =
    let degree = first_length coeffs in
    if degree == 0 || any_of_other_length degree coeffs
    then err dimension_mismatch
    else ok (record { degree = degree; coeffs = coeffs })

unfoldable pub component : Poly → ℕ → Option (List ℕ)
component p index = get_elem? p.coeffs index

unfoldable pub moduli_count : Poly → ℕ
moduli_count p = length p.coeffs
