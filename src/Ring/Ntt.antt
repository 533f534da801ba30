-- ===== src/Ring/Ntt.antt =====
-- crates/phantom-ring/src/ntt/table.rs: the roots and power tables of a negacyclic transform.
pub mod Roots
pub mod Transform
pub mod Tests
use phantom_fhe.Base.{
  ℕ, zero, suc, ◌+◌, ◌-◌, ◌*◌, ◌/◌, ◌%◌, ◌^◌, min, Bool, not, ◌&&◌, List, [], ◌∷◌, Option, none,
  some, Result, ok, err, panic, ◌>>=◌, ◌>>◌, guard, if◌then◌else◌, ◌==◌, u64, sub_u64, ok_or,
}
use phantom_fhe.Ring.Error.{RingError, invalid_ntt_modulus, missing_root}
use phantom_fhe.Ring.Types.{Modulus, supports_ntt}
use phantom_fhe.Ring.Reduce.{mul_mod, pow_mod, inv_mod}
use phantom_fhe.Ring.Barrett.{BarrettReducer, barrett_new}

pub record NttTable : Type 0 where
  pub modulus : Modulus
  pub degree : ℕ
  pub psi : ℕ
  pub omega_root : ℕ
  pub inv_psi : ℕ
  pub inv_omega : ℕ
  pub inv_degree : ℕ
  pub psi_powers : List ℕ
  pub inv_psi_powers : List ℕ
  pub reducer : BarrettReducer

unfoldable pub power_table_from : ℕ → ℕ → ℕ → ℕ → List ℕ
power_table_from current root zero modulus = []
power_table_from current root (suc count) modulus =
    current ∷ power_table_from (mul_mod current root modulus) root count modulus

unfoldable pub power_table : ℕ → ℕ → ℕ → List ℕ
unfolding power_table_from
power_table root count modulus = power_table_from 1 root count modulus

-- The test of both searches: the power is 1 at the order and not at half of it.
unfoldable pub is_primitive : ℕ → ℕ → ℕ → Bool
is_primitive order modulus h =
    pow_mod h order modulus == 1 && not (pow_mod h (order / 2) modulus == 1)

-- `for candidate in from..from + rounds`, with the first root that passes.
unfoldable pub search_root : (ℕ → ℕ) → ℕ → ℕ → ℕ → ℕ → Option ℕ
search_root root_of order modulus zero candidate = none
search_root root_of order modulus (suc rounds) candidate =
    let rest = search_root root_of order modulus rounds (candidate + 1) in
    if is_primitive order modulus (root_of candidate) then some (root_of candidate) else rest

abbrev search_limit : ℕ
search_limit = 10000

unfoldable pub or_else : Option ℕ → Option ℕ → Option ℕ
or_else none o = o
or_else (some a) o = some a

unfoldable pub primitive_root_of_order : ℕ → ℕ → Result RingError ℕ
primitive_root_of_order order modulus =
    let rounds = min modulus search_limit - 2 in
    let cofactor = sub_u64 modulus 1 / order in
    let second = search_root (λ c. pow_mod c cofactor modulus) order modulus rounds 2 in
    ok_or (or_else (search_root (λ c. c) order modulus rounds 2) second) (missing_root modulus)

unfoldable pub ntt_table_new : ℕ → Modulus → Result RingError NttTable
ntt_table_new degree modulus = do
  guard (supports_ntt modulus degree) (invalid_ntt_modulus modulus.value (u64 (2 * degree)))
  let q = modulus.value
  psi ← primitive_root_of_order (u64 (2 * degree)) q
  let omega_root = mul_mod psi psi q
  let inv_psi = inv_mod psi q
  reducer ← barrett_new q
  ok (record {
    modulus = modulus;
    degree = degree;
    psi = psi;
    omega_root = omega_root;
    inv_psi = inv_psi;
    inv_omega = inv_mod omega_root q;
    inv_degree = inv_mod degree q;
    psi_powers = power_table psi degree q;
    inv_psi_powers = power_table inv_psi degree q;
    reducer = reducer;
  })
