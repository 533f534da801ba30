-- ===== src/Schemes/Params.antt =====
-- crates/phantom-schemes/src/{bgv,bfv,ckks}/params.rs, and the checks of security.rs on the moduli.
-- `gcd` of security.rs is that of the ring crate.
pub mod Rotation
use phantom_fhe.Base.{
  ℕ, zero, suc, ◌+◌, ◌-◌, ◌*◌, ◌/◌, ◌%◌, Bool, false, not, ◌||◌, List, [], ◌∷◌, Option, none, some,
  Result, ok, ◌>>=◌, ◌>>◌, guard, ok_or, if◌then◌else◌, leb, ◌==◌, length, take, min,
}
use phantom_fhe.Ring.Types.{Modulus, degree_new}
use phantom_fhe.Ring.Gcd.{gcd}
use phantom_fhe.Ring.Context.{Ring, ring_new}
use phantom_fhe.Schemes.Error.{
  SchemesError, invalid_parameters, lift_ring, plaintext_modulus_not_above_one,
  plaintext_modulus_too_large, ring_without_moduli, level_too_high, repeated_moduli, common_factor,
}
use phantom_fhe.Schemes.Float.{Scale}

-- `ring.moduli().iter().map(|q| q.value()).min()`
unfoldable pub least_value : ℕ → List Modulus → ℕ
least_value least [] = least
least_value least (q ∷ qs) = least_value (min least q.value) qs

unfoldable pub min_modulus : List Modulus → Option ℕ
min_modulus [] = none
min_modulus (q ∷ qs) = some (least_value q.value qs)

-- `is_empty`
unfoldable pub has_no_moduli : Ring → Bool
has_no_moduli r = length r.moduli == 0

pub record BgvParams : Type 0 where
  pub ring : Ring
  pub plaintext_modulus : ℕ

unfoldable pub bgv_params_new : Ring → ℕ → Result SchemesError BgvParams
bgv_params_new r plaintext_modulus = do
  guard (not (leb plaintext_modulus 1)) (invalid_parameters plaintext_modulus_not_above_one)
  guard (not (has_no_moduli r)) (invalid_parameters ring_without_moduli)
  min_q ← ok_or (min_modulus r.moduli) (invalid_parameters ring_without_moduli)
  guard (not (leb min_q plaintext_modulus)) (invalid_parameters plaintext_modulus_too_large)
  ok record { ring = r; plaintext_modulus = plaintext_modulus }

-- `for _ in 0..steps { element = (element * 5) % two_n }`, below 2 ^ 64 at the degrees of a vector.
unfoldable pub times_five : ℕ → ℕ → ℕ → ℕ
times_five two_n zero element = element
times_five two_n (suc steps) element = times_five two_n steps (element * 5 % two_n)

unfoldable pub rotation_steps : ℕ → ℕ → ℕ
rotation_steps row shift = if row == 0 then 0 else shift % row

unfoldable pub rotation_element : BgvParams → ℕ → ℕ
rotation_element p shift =
    let degree = p.ring.degree.get in times_five (2 * degree) (rotation_steps (degree / 2) shift) 1

unfoldable pub row_swap_element : BgvParams → ℕ
row_swap_element p = 2 * p.ring.degree.get - 1

pub record BfvParams : Type 0 where
  pub inner : BgvParams

unfoldable pub bfv_params_new : Ring → ℕ → Result SchemesError BfvParams
bfv_params_new r plaintext_modulus = do
  inner ← bgv_params_new r plaintext_modulus
  ok record { inner = inner }

pub record CkksParams : Type 0 where
  pub ring : Ring
  pub default_scale : Scale
  pub conjugate_invariant : Bool

unfoldable pub ckks_params_new : Ring → Scale → Bool → Result SchemesError CkksParams
ckks_params_new r default_scale conjugate_invariant = do
  guard (not (has_no_moduli r)) (invalid_parameters ring_without_moduli)
  ok record { ring = r; default_scale = default_scale; conjugate_invariant = conjugate_invariant }

unfoldable pub slot_count : CkksParams → ℕ
slot_count p = if p.conjugate_invariant then p.ring.degree.get else p.ring.degree.get / 2

-- `saturating_sub`
unfoldable pub initial_level : CkksParams → ℕ
initial_level p = length p.ring.moduli - 1

unfoldable pub ckks_rotation_element : CkksParams → ℕ → ℕ
ckks_rotation_element p shift =
    times_five (2 * p.ring.degree.get) (rotation_steps (slot_count p) shift) 1

unfoldable pub at_level : CkksParams → ℕ → Result SchemesError CkksParams
at_level p level = do
  guard (not (leb (length p.ring.moduli) level)) (invalid_parameters level_too_high)
  degree ← lift_ring (degree_new p.ring.degree.get)
  r ← lift_ring (ring_new degree (take (level + 1) p.ring.moduli))
  ckks_params_new r p.default_scale p.conjugate_invariant

-- The inner loop of `check_distinct_moduli`.
unfoldable pub is_repeated : Modulus → List Modulus → Bool
is_repeated a [] = false
is_repeated a (b ∷ bs) = a.value == b.value || is_repeated a bs

unfoldable pub check_distinct_moduli : List Modulus → Result SchemesError (Unit {0})
check_distinct_moduli [] = ok tt
check_distinct_moduli (a ∷ moduli) = do
  guard (not (is_repeated a moduli)) (invalid_parameters repeated_moduli)
  check_distinct_moduli moduli

-- `check_plaintext_modulus_coprime_to_ciphertext_moduli`
unfoldable pub check_coprime : ℕ → List Modulus → Result SchemesError (Unit {0})
check_coprime plaintext_modulus [] = ok tt
check_coprime plaintext_modulus (q ∷ moduli) = do
  guard (gcd plaintext_modulus q.value == 1) (invalid_parameters common_factor)
  check_coprime plaintext_modulus moduli
