-- ===== src/Schemes/Builder.antt =====
-- The builders of crates/phantom-schemes/src/{bgv,bfv}/params.rs, with the table of
-- crates/phantom-lattice/src/security.rs. The test that the sum of the moduli's `f64::log2`, which
-- the standard library leaves to the platform, is at most a limit is the parameter `within`.
pub mod Accepted
use phantom_fhe.Base.{
  ℕ, Bool, true, false, List, [], ◌∷◌, ◌++◌, not, Option, none, some, Result, ok, err, ◌>>=◌, ◌>>◌,
  guard, ok_or, if◌then◌else◌, ◌==◌, length,
}
use phantom_fhe.Ring.Types.{Modulus, degree_new, modulus_new}
use phantom_fhe.Ring.Context.{ring_new}
use phantom_fhe.Schemes.Error.{
  SchemesError, invalid_parameters, lift_ring, missing_degree, missing_plaintext_modulus,
  missing_moduli, not_128_bit_secure,
}
use phantom_fhe.Schemes.Params.{
  BgvParams, bgv_params_new, BfvParams, check_distinct_moduli, check_coprime,
}

unfoldable pub max_secure_total_modulus_bits_128 : ℕ → Option ℕ
max_secure_total_modulus_bits_128 degree =
    if degree == 1024
    then some 27
    else (if degree == 2048
        then some 54
        else (if degree == 4096
            then some 109
            else (if degree == 8192
                then some 218
                else (if degree == 16384
                    then some 438
                    else (if degree == 32768 then some 881 else none)))))

pub record BgvParamsBuilder : Type 0 where
  pub degree : Option ℕ
  pub moduli : List ℕ
  pub plaintext_modulus : Option ℕ
  pub require_128_bit_security : Bool

-- `default`
unfoldable pub builder : BgvParamsBuilder
builder = record {
  degree = none;
  moduli = [];
  plaintext_modulus = none;
  require_128_bit_security = false;
}

unfoldable pub with_degree : BgvParamsBuilder → ℕ → BgvParamsBuilder
with_degree b degree = record b { degree = some degree }

unfoldable pub with_moduli : BgvParamsBuilder → List ℕ → BgvParamsBuilder
with_moduli b moduli = record b { moduli = moduli }

unfoldable pub push_modulus : BgvParamsBuilder → ℕ → BgvParamsBuilder
push_modulus b modulus = record b { moduli = b.moduli ++ (modulus ∷ []) }

unfoldable pub with_plaintext_modulus : BgvParamsBuilder → ℕ → BgvParamsBuilder
with_plaintext_modulus b plaintext_modulus = record b { plaintext_modulus = some plaintext_modulus }

unfoldable pub require_security : BgvParamsBuilder → BgvParamsBuilder
require_security b = record b { require_128_bit_security = true }

-- `for modulus in self.moduli { moduli.push(Modulus::new(modulus)?) }`
unfoldable pub moduli_new : List ℕ → Result SchemesError (List Modulus)
moduli_new [] = ok []
moduli_new (q ∷ qs) = do
  modulus ← lift_ring (modulus_new q)
  moduli ← moduli_new qs
  ok (modulus ∷ moduli)

module _ (within : List Modulus → ℕ → Bool) where
  -- `Some(limit) if total_bits <= f64::from(limit)`
  unfoldable pub is_within : List Modulus → Option ℕ → Bool
  is_within moduli none = false
  is_within moduli (some limit) = within moduli limit

  unfoldable pub check_128_bit_security : ℕ → List Modulus → Result SchemesError (Unit {0})
  check_128_bit_security degree moduli =
      guard (is_within moduli (max_secure_total_modulus_bits_128 degree))
        (invalid_parameters not_128_bit_secure)

  unfoldable pub check_security : Bool → ℕ → List Modulus → Result SchemesError (Unit {0})
  check_security required degree moduli =
      if required then check_128_bit_security degree moduli else ok tt

  unfoldable pub bgv_build : BgvParamsBuilder → Result SchemesError BgvParams
  bgv_build b = do
    degree_value ← ok_or b.degree (invalid_parameters missing_degree)
    degree ← lift_ring (degree_new degree_value)
    plaintext_modulus ← ok_or b.plaintext_modulus (invalid_parameters missing_plaintext_modulus)
    guard (not (length b.moduli == 0)) (invalid_parameters missing_moduli)
    moduli ← moduli_new b.moduli
    check_distinct_moduli moduli
    check_coprime plaintext_modulus moduli
    check_security b.require_128_bit_security degree_value moduli
    r ← lift_ring (ring_new degree moduli)
    bgv_params_new r plaintext_modulus

  unfoldable pub bfv_build : BgvParamsBuilder → Result SchemesError BfvParams
  bfv_build b = do inner ← bgv_build b; ok record { inner = inner }
