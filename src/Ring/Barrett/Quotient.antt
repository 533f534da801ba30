-- ===== src/Ring/Barrett/Quotient.antt =====
-- The estimated quotient is short by one at most, so that `reduce` gives the remainder.
use native.Mathlib.Nat
use native.Mathlib.Decide.{dec_lt}
use phantom_fhe.Base.{
  ℕ, suc, ◌+◌, ◌-◌, ◌*◌, ◌/◌, ◌%◌, ◌≤◌, ◌<◌, ◌≡◌, sym, ap, ◌∙◌, ok, u64, u128, sub_u128, u64_mod,
  u128_mod, IsU64, IsU128, arith,
}
use phantom_fhe.Base.Residues.{mod-eq_small, mod-sub}
use phantom_fhe.Ring.Barrett.{BarrettReducer, correct_once, reduce}
use phantom_fhe.Ring.Barrett.Product.{mul_wide_128_lem}

module _ (base m mu v q : ℕ) (pos : 0 < base) where
  -- With `mu` the quotient of the base and `q` the top part of `v * mu`, the estimate is not above.
  estimate-le : mu * m ≤ base → q * base ≤ v * mu → q * m ≤ v
  estimate-le h e = Nat.le_of_mul-le-mul_right {k = base} scaled pos
    where
      scaled : q * m * base ≤ v * base
      scaled = omega (arith, Nat.mul-le-mul_right m e, Nat.mul-le-mul_left v h)

  -- It is below by less than two, for a value that is below the base.
  estimate-lt : 0 < m → v < base → base ≤ mu * m + m → v * mu < q * base + base → v < q * m + m + m
  estimate-lt m_pos small h e = elim (dec_lt v (q * m + m + m)) [
    | yes below ↦ below
    | no above ↦ absurd (too_large (omega arith))
  ]
    where
      too_large : q * m + m + m ≤ v → ⊥
      too_large le =
          let scaled : (q * m + m + m) * base ≤ v * base = Nat.mul-le-mul_right base le in
          let upper : v * base ≤ v * (mu * m + m) = Nat.mul-le-mul_left v h in
          let row : suc (v * mu) * m ≤ (q * base + base) * m = Nat.mul-le-mul_right m e in
          let column : suc v * m ≤ base * m = Nat.mul-le-mul_right m small in omega arith

-- Two conditional subtractions bring a number below twice the modulus to its remainder.
correct_once_lem : (r m : ℕ) → r < m + m → correct_once (correct_once r m) m ≡ r % m
unfolding correct_once
correct_once_lem r m h = ground (arith, mod-eq_small r m, mod-sub r m)

-- What `new` establishes: the multiplier is the quotient of 2 ^ 128.
pub record IsBarrett (r : BarrettReducer) : Type 0 where
  pub fits : IsU64 r.modulus
  pub large : 2 ≤ r.modulus
  pub mu_is_quotient : r.mu ≡ u128_mod / r.modulus

module _ (r : BarrettReducer) (ok_r : IsBarrett r) where
  open r use {modulus, mu}

  pos : 0 < modulus
  pos = omega (arith, ok_r.large)

  mu-le : mu * modulus ≤ u128_mod
  mu-le = rw ok_r.mu_is_quotient (Nat.div-mul-le_self u128_mod modulus)

  mu-gt : u128_mod ≤ mu * modulus + modulus
  mu-gt =
      rw ok_r.mu_is_quotient
        (omega (arith, Nat.div-add-mod' u128_mod modulus, Nat.mod-lt u128_mod pos))

  mu-fits : IsU128 mu
  mu-fits = omega (arith, mu-le, Nat.mul-le-mul_left mu ok_r.large)

  word-quotient : (q v : ℕ) → q * modulus ≤ v → v < modulus * u64_mod → IsU64 q
  word-quotient q v h k = elim (dec_lt q u64_mod) [
    | yes small ↦ small
    | no large ↦
        let scaled : u64_mod * modulus ≤ q * modulus = Nat.mul-le-mul_right modulus (omega arith) in
        absurd (omega arith)
  ]

  sub-mod : (q v : ℕ) → q * modulus ≤ v → (v - q * modulus) % modulus ≡ v % modulus
  sub-mod q v h =
      sym (Nat.mul-add-mod_self_right q modulus (v - q * modulus))
      ∙ ap (λ (t : ℕ). t % modulus) (omega arith)

  -- The words of the source hold every intermediate value, and the corrections finish the job.
  correct_lem :
      (q v : ℕ)
      → q * modulus ≤ v
      → v < q * modulus + modulus + modulus
      → v < modulus * u64_mod
      → u64 (correct_once (correct_once (sub_u128 v (u128 (u64 q * modulus))) modulus) modulus)
        ≡ v % modulus
  correct_lem q v h k small =
      rw (Nat.mod-eq_of_lt (word-quotient q v h small), rest)
        (rw (correct_once_lem (v - q * modulus) modulus (omega arith), sub-mod q v h)
          (Nat.mod-eq_of_lt (omega (arith, Nat.mod-lt v pos, ok_r.fits))))
    where
      rest : sub_u128 v (u128 (q * modulus)) ≡ v - q * modulus
      rest = omega (arith, ok_r.fits)

  -- For a reducer with a word modulus from 2 on and mu the quotient of 2 ^ 128 by it, and a value
  -- below 2 ^ 64 times the modulus, the reduction returns the remainder.
  pub reduce_lem : (v : ℕ) → v < modulus * u64_mod → reduce r v ≡ ok (v % modulus)
  unfolding reduce
  reduce_lem v h =
      let fits : IsU128 v = omega (arith, ok_r.fits) in
      let (hi, lo, computed, split, low) = mul_wide_128_lem v mu fits mu-fits in
      let at_most : hi * u128_mod ≤ v * mu = omega (arith, split) in
      let at_least : v * mu < hi * u128_mod + u128_mod = omega (arith, split, low) in
      rw computed (
        ap ok (
          correct_lem hi v (estimate-le u128_mod modulus mu v hi (omega arith) mu-le at_most)
            (estimate-lt u128_mod modulus mu v hi (omega arith) pos fits mu-gt at_least) h))
