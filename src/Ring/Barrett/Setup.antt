-- ===== src/Ring/Barrett/Setup.antt =====
-- `new` computes the multiplier exactly, so that a reducer it returns is correct.
use native.Mathlib.Nat
use native.Mathlib.Decide.{dec_lt}
use phantom_fhe.Base.{
  ℕ, ◌+◌, ◌*◌, ◌/◌, ◌%◌, ◌^◌, ◌≤◌, ◌<◌, ◌≡◌, refl, sym, ap, ◌∙◌, List, [], ◌∷◌, ok, err, u64_mod,
  u128_mod, IsU64, arith, ltb, lt→ltb, All, length, bit_or, get_or, ◌⊎◌, inl, inr, false,
}
use phantom_fhe.Base.Bits.{bit_or_high}
use phantom_fhe.Base.Residues.{div_unique}
use phantom_fhe.Ring.Error.{modulus_too_small}
use phantom_fhe.Ring.BigUint.{BigUint, to_u128, shl_limbs, from_u64, is_zero}
use phantom_fhe.Ring.BigUint.Value.{limbs_value, value, IsNormal, IsTrimmed}
use phantom_fhe.Ring.BigUint.Compare.{pow-le-limbs_value}
use phantom_fhe.Ring.BigUint.Division.{divmod_u64_lem}
use phantom_fhe.Ring.Barrett.{BarrettReducer, reduce, barrett_new}
use phantom_fhe.Ring.Barrett.Quotient.{IsBarrett, reduce_lem}

not_small : (m : ℕ) → 2 ≤ m → ltb m 2 ≡ false
not_small m h = ground arith

two_limbs :
    (xs : List ℕ)
    → All IsU64 xs
    → IsTrimmed xs
    → limbs_value xs < u128_mod
    → bit_or (get_or xs 0 0) (get_or xs 1 0 * 2 ^ 64) ≡ limbs_value xs
two_limbs [] h t lt = refl
two_limbs (x ∷ []) h t lt = bit_or_high 64 x 0 h.0 ∙ omega arith
two_limbs (x ∷ y ∷ []) h t lt = bit_or_high 64 x y h.0 ∙ omega arith
two_limbs (x ∷ y ∷ z ∷ zs) h t lt =
    absurd
      (omega (arith, pow-le-limbs_value z zs t, Nat.one-le-pow (length zs) u64_mod (omega arith)))

-- A normal form below 2 ^ 128 is read back exactly.
pub to_u128_lem : (x : BigUint) → IsNormal x → value x < u128_mod → to_u128 x ≡ value x
unfolding to_u128
to_u128_lem x h lt = two_limbs x.limbs h.words h.trimmed lt

abbrev two_pow_128 : BigUint
two_pow_128 = record { limbs = 0 ∷ 0 ∷ 1 ∷ [] }

two_pow_128-shl_limbs : shl_limbs (from_u64 1) 2 ≡ two_pow_128
unfolding shl_limbs from_u64 is_zero
two_pow_128-shl_limbs = refl

two_pow_128-IsNormal : IsNormal two_pow_128
two_pow_128-IsNormal = record {
  words = (omega arith, (omega arith, (omega arith, tt)));
  trimmed = omega arith;
}

quotient_lem : (n m q rem : ℕ) → q * m + rem ≡ n → rem < m → q ≡ n / m
quotient_lem n m q rem total below = sym (div_unique q rem m below) ∙ ap (λ (t : ℕ). t / m) total

pub barrett_new-IsBarrett :
    (m : ℕ)
    → 2 ≤ m
    → IsU64 m
    → (r : BarrettReducer) × (barrett_new m ≡ ok r) × (r.modulus ≡ m) × IsBarrett r
unfolding barrett_new
barrett_new-IsBarrett m large fits =
    let (q, rem, computed, total, below, normal) =
      divmod_u64_lem m (omega arith) fits two_pow_128 two_pow_128-IsNormal in
    let quotient : value q ≡ u128_mod / m = quotient_lem u128_mod m (value q) rem total below in
    let small : value q < u128_mod = omega (arith, total, Nat.mul-le-mul_left (value q) large) in
    (
      record { modulus = m; mu = to_u128 q },
      rw (not_small m large, two_pow_128-shl_limbs, computed),
      refl,
      record { fits = fits; large = large; mu_is_quotient = to_u128_lem q normal small ∙ quotient },
    )

-- For a 64-bit modulus and a value below 2 ^ 64 times the modulus: the reducer is refused where
-- the modulus is below 2, and else it is made and reduces the value to its remainder.
pub barrett_new-reduce :
    (m v : ℕ)
    → IsU64 m
    → v < m * u64_mod
    → ((m < 2) × (barrett_new m ≡ err (modulus_too_small m)))
      ⊎ ((r : BarrettReducer) × (barrett_new m ≡ ok r) × (reduce r v ≡ ok (v % m)))
barrett_new-reduce m v fits h = elim (dec_lt m 2) [
  | yes small ↦ inl (small, unfold barrett_new in rw (lt→ltb m 2 small))
  | no large ↦
      let (r, computed, same, is_barrett) = barrett_new-IsBarrett m (omega arith) fits in
      inr (r, computed, reduce_lem r is_barrett v (rw same h) ∙ ap (λ (t : ℕ). ok (v % t)) same)
]
