-- ===== src/Ring/Rns/CenteredValue.antt =====
-- A value as the number of least magnitude, within `i128` or refused.
use native.Mathlib.Nat
use phantom_fhe.Base.{
  ℕ, zero, suc, ◌+◌, ◌-◌, ◌*◌, ◌/◌, ◌%◌, ◌^◌, ◌≤◌, ◌<◌, ◌≡◌, refl, sym, ap, ◌∙◌, List, [], ◌∷◌,
  some, none, Bool, true, not, Bool-cases, inl, inr, ltb, ltb→lt, ltb→ge, if◌then◌else◌, Result, ok,
  err, ok_or, guard, ◌>>=◌, ◌>>◌, All, length, IsU64, u64_mod, u128_mod, arith,
}
use phantom_fhe.Base.Signed.{ℤ, pos, opposite, to_i128}
use phantom_fhe.Ring.Error.{RingError, crt_overflow}
use phantom_fhe.Ring.Barrett.Setup.{to_u128_lem}
use phantom_fhe.Ring.BigUint
use phantom_fhe.Ring.BigUint.{BigUint}
use phantom_fhe.Ring.BigUint.Value.{limbs_value, value, IsNormal, IsTrimmed}
use phantom_fhe.Ring.BigUint.Compare.{pow-le-limbs_value}
use phantom_fhe.Ring.Rns.Rescale.{centered_magnitude}
use phantom_fhe.Ring.Rns.Rounding.{least_magnitude, is_negative_lem, centered_magnitude_lem}
use phantom_fhe.Ring.Rns.Centered.{rem_euclid, centered_value}

two_limbs_iff :
    (xs : List ℕ)
    → All IsU64 xs
    → IsTrimmed xs
    → ltb 2 (length xs) ≡ not (ltb (limbs_value xs) u128_mod)
two_limbs_iff [] h t = ground arith
two_limbs_iff (x ∷ []) h t = ground (arith, h.0)
two_limbs_iff (x ∷ y ∷ []) h t = ground (arith, h.0, h.1)
two_limbs_iff (x ∷ y ∷ z ∷ zs) h t = ground (
  arith,
  pow-le-limbs_value x (y ∷ z ∷ zs) t,
  Nat.pow-le-pow_right {n = u64_mod} (omega arith) {i = 2} {j = length (y ∷ z ∷ zs)} (omega arith),
)

checked_to_u128_lem :
    (x : BigUint)
    → IsNormal x
    → BigUint.checked_to_u128 x ≡ (if ltb (value x) u128_mod then some (value x) else none)
unfolding BigUint.checked_to_u128
checked_to_u128_lem x h = elim (Bool-cases (ltb (value x) u128_mod)) [
  | inl e ↦
      rw (two_limbs_iff x.limbs h.words h.trimmed, e) (ap some (to_u128_lem x h (ltb→lt _ _ e)))
  | inr e ↦ rw (two_limbs_iff x.limbs h.words h.trimmed, e) refl
]

-- The signed number of a magnitude.
abbrev pub signed_number : Bool → ℕ → ℤ
signed_number negative m = if negative then opposite (pos m) else pos m

abbrev checked_number : Bool → ℕ → Result RingError ℤ
checked_number negative m = do
  magnitude ← ok_or (if ltb m u128_mod then some m else none) crt_overflow
  guard (not (ltb (2 ^ 127 - 1) magnitude)) crt_overflow
  ok (if negative then opposite (to_i128 magnitude) else to_i128 magnitude)

checked_number_lem :
    (negative : Bool) (m : ℕ)
    → checked_number negative m
      ≡ (if ltb (2 ^ 127 - 1) m then err crt_overflow else ok (signed_number negative m))
checked_number_lem negative m = elim (Bool-cases (ltb (2 ^ 127 - 1) m)) [
  | inl large ↦ elim (Bool-cases (ltb m u128_mod)) [
    | inl fits ↦ rw (fits, large) refl
    | inr wide ↦ rw (wide, large) refl
  ]
  | inr small ↦
      let fits : ltb m u128_mod ≡ true = ground (arith, ltb→ge _ _ small) in
      let plain : ltb m (2 ^ 127) ≡ true = ground (arith, ltb→ge _ _ small) in
      rw (fits, small, plain) refl
]

-- For big integers in normal form and a value of at most the modulus: where the least magnitude
-- exceeds `i128::MAX` the value is refused as an overflow, and else the signed number of that
-- magnitude is returned, negative where twice the value exceeds the modulus.
pub centered_value_lem :
    (big_q v : BigUint)
    → IsNormal big_q
    → IsNormal v
    → value v ≤ value big_q
    → centered_value big_q v ≡ (
        if ltb (2 ^ 127 - 1) (least_magnitude (value big_q) (value v))
        then err crt_overflow
        else ok (
            signed_number
              (ltb (value big_q) (value v * 2))
              (least_magnitude (value big_q) (value v))))
unfolding centered_value
centered_value_lem big_q v nq nv le =
    let (magnitude, nm) = centered_magnitude_lem big_q v nq nv le in
    let checked = checked_to_u128_lem (centered_magnitude big_q v) nm in
    rw (checked, magnitude, is_negative_lem big_q v nq nv)
      (checked_number_lem (ltb (value big_q) (value v * 2))
        (least_magnitude (value big_q) (value v)))

rem_euclid-opposite : (m q : ℕ) → 0 < q → (rem_euclid (opposite (pos m)) q + m) % q ≡ 0
unfolding rem_euclid
rem_euclid-opposite zero q h = omega arith
rem_euclid-opposite (suc k) q h =
    let parts = Nat.div-add-mod k q in
    ap (λ (n : ℕ). n % q) {y = q * (k / q + 1)}
      (grind (arith, parts, Nat.mod-lt k h, Nat.mul-add q (k / q) 1, Nat.mul-one q))
    ∙ Nat.mul-mod_right q (k / q + 1)

-- Modulo a positive q, for a value of at most the modulus, the number of least magnitude, plus the
-- modulus where it is negative, is the value.
pub rem_euclid-signed_number :
    (big_q v q : ℕ)
    → 0 < q
    → v ≤ big_q
    → (rem_euclid (signed_number (ltb big_q (v * 2)) (least_magnitude big_q v)) q
          + (if ltb big_q (v * 2) then big_q else 0))
        % q
      ≡ v % q
unfolding rem_euclid
rem_euclid-signed_number big_q v q pos_q le = elim (Bool-cases (ltb big_q (v * 2))) [
  | inl e ↦
      let r = rem_euclid (opposite (pos (big_q - v))) q in
      rw e (
        ap (λ (n : ℕ). n % q) {x = r + big_q} {y = r + (big_q - v) + v} (omega (arith, le))
        ∙ sym (Nat.mod-add-mod (r + (big_q - v)) q v)
        ∙ ap (λ (n : ℕ). (n + v) % q) (rem_euclid-opposite (big_q - v) q pos_q)
        ∙ ap (λ (n : ℕ). n % q) (Nat.zero-add v))
  | inr e ↦ rw e (ap (λ (n : ℕ). n % q) (Nat.add-zero (v % q)) ∙ Nat.mod-mod v q)
]
