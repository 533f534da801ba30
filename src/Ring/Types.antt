-- ===== src/Ring/Types.antt =====
-- crates/phantom-ring/src/types.rs and modulus.rs: the validated degree, level and modulus.
use phantom_fhe.Base.{
  ℕ, zero, suc, ◌*◌, ◌%◌, ◌^◌, ◌≤◌, ◌<◌, ◌≡◌, inl, inr, Bool, true, false, ◌||◌, not, Result, ok,
  err, if◌then◌else◌, leb, ◌==◌, ==_iff, Bool-cases, u64, sub_u64, arith,
}
use phantom_fhe.Ring.Error.{RingError, invalid_degree, invalid_modulus}

-- `usize::is_power_of_two`: one of the powers below `2 ^ bits`.
unfoldable is_power_below : ℕ → ℕ → Bool
is_power_below zero n = false
is_power_below (suc k) n = n == 2 ^ k || is_power_below k n

unfoldable pub is_power_of_two : ℕ → Bool
unfolding is_power_below
is_power_of_two n = is_power_below 64 n

pub record Degree : Type 0 where
  pub get : ℕ

pub record Level : Type 0 where
  pub get : ℕ

pub record Modulus : Type 0 where
  pub value : ℕ

unfoldable pub degree_new : ℕ → Result RingError Degree
degree_new value =
    if value == 0 || not (is_power_of_two value)
    then err (invalid_degree value)
    else ok (record { get = value })

unfoldable pub level_new : ℕ → Level
level_new value = record { get = value }

unfoldable pub modulus_new : ℕ → Result RingError Modulus
modulus_new value =
    if leb value 1 || value % 2 == 0
    then err (invalid_modulus value)
    else ok (record { value = value })

-- `(self.value - 1) % (2 * n) as u64 == 0`
unfoldable pub supports_ntt : Modulus → ℕ → Bool
supports_ntt m n = sub_u64 m.value 1 % u64 (2 * n) == 0

is_power_below_sound : (k n : ℕ) → is_power_below k n ≡ true → (e : ℕ) × (e < k) × (n ≡ 2 ^ e)
unfolding is_power_below
is_power_below_sound zero n h = absurd (ground arith)
is_power_below_sound (suc k) n h = elim (Bool-cases (n == 2 ^ k)) [
  | inl hit ↦ (k, omega arith, (==_iff n (2 ^ k)).0 hit)
  | inr miss ↦ let (e, below, eq) = is_power_below_sound k n (ground arith) in (e, omega arith, eq)
]

-- A degree that is accepted is a power of two that fits `usize`.
degree_new-power :
    (n : ℕ) {d : Degree} → degree_new n ≡ ok d → (d.get ≡ n) × ((e : ℕ) × (e < 64) × (n ≡ 2 ^ e))
unfolding degree_new is_power_of_two
degree_new-power n h = (ground arith, is_power_below_sound 64 n (ground arith))

-- A modulus that is accepted is odd and at least 3.
modulus_new-odd :
    (n : ℕ) {m : Modulus} → modulus_new n ≡ ok m → (m.value ≡ n) × (3 ≤ n) × (n % 2 ≡ 1)
unfolding modulus_new
modulus_new-odd n h = ground arith
