-- ===== src/Ring/Rns/Tests.antt =====
-- The reconstruction at a basis of two moduli.
use phantom_fhe.Base.{ℕ, ◌%◌, ◌<◌, ◌≡◌, refl, List, [], ◌∷◌, ok, arith}
use phantom_fhe.Ring.Types.{Modulus}
use phantom_fhe.Ring.BigUint.{BigUint}
use phantom_fhe.Ring.BigUint.Value.{value}
use phantom_fhe.Ring.Rns.{basis_product, crt_constants, true_value}
use phantom_fhe.Ring.Rns.Constants.{modulus_product}
use phantom_fhe.Ring.Rns.Residues.{true_value-residue_at}

abbrev moduli : List Modulus
moduli = record { value = 17 } ∷ record { value = 97 } ∷ []

abbrev residues : List (List ℕ)
residues = (3 ∷ []) ∷ (5 ∷ []) ∷ []

true_value-residue_at_example :
    (constants : List (BigUint × ℕ)) × (v : BigUint) × (crt_constants (basis_product moduli) moduli
      ≡ ok constants)
    × (true_value residues moduli constants (basis_product moduli) 0 ≡ ok v)
    × (value v < modulus_product moduli)
    × (value v % 97 ≡ 5)
true_value-residue_at_example =
    true_value-residue_at residues moduli 0 1
      ((omega arith, omega arith), ((omega arith, omega arith), tt))
      (omega arith, (omega arith, tt)) (omega arith) (omega arith) refl (omega arith)
