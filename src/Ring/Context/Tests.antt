-- ===== src/Ring/Context/Tests.antt =====
-- The properties of the ring at a small ring with two moduli.
use phantom_fhe.Base.{◌≡◌, refl, [], ◌∷◌, none, ok, arith}
use phantom_fhe.Ring.Poly.{Poly}
use phantom_fhe.Ring.Context.{Ring, ring_add, ring_sub}
use phantom_fhe.Ring.Context.Product.{apply_automorphism}
use phantom_fhe.Ring.Context.WellFormed.{HasModuli, IsPoly}
use phantom_fhe.Ring.Context.Additive.{ring_sub-ring_add}
use phantom_fhe.Ring.Context.Galois.{AreMoved, apply_automorphism-AreMoved}

abbrev ring : Ring
ring = record {
  degree = record { get = 2 };
  moduli = record { value = 17 } ∷ record { value = 97 } ∷ [];
  reducers = none ∷ none ∷ [];
  ntt_tables = none ∷ none ∷ [];
}

ring-HasModuli : HasModuli ring
ring-HasModuli = ((omega arith, omega arith), ((omega arith, omega arith), tt))

abbrev first : Poly
first = record { degree = 2; coeffs = (16 ∷ 3 ∷ []) ∷ (96 ∷ 3 ∷ []) ∷ [] }

first-IsPoly : IsPoly ring first
first-IsPoly = record {
  same_degree = refl;
  rows = ((refl, (omega arith, (omega arith, tt))), ((refl, (omega arith, (omega arith, tt))), tt));
}

abbrev second : Poly
second = record { degree = 2; coeffs = (5 ∷ 0 ∷ []) ∷ (50 ∷ 60 ∷ []) ∷ [] }

second-IsPoly : IsPoly ring second
second-IsPoly = record {
  same_degree = refl;
  rows = ((refl, (omega arith, (omega arith, tt))), ((refl, (omega arith, (omega arith, tt))), tt));
}

ring_sub-ring_add_example :
    (s : Poly) × (ring_add ring first second ≡ ok s)
    × IsPoly ring s
    × (ring_sub ring s second ≡ ok first)
ring_sub-ring_add_example =
    ring_sub-ring_add ring ring-HasModuli first second first-IsPoly second-IsPoly

apply_automorphism-AreMoved_example :
    (s : Poly) × (apply_automorphism ring first 3 ≡ ok s)
    × (s.degree ≡ 2)
    × AreMoved 2 3 ring.moduli first.coeffs s.coeffs
apply_automorphism-AreMoved_example =
    apply_automorphism-AreMoved ring first 3 1 first-IsPoly (omega arith) refl refl
