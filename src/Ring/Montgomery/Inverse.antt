-- ===== src/Ring/Montgomery/Inverse.antt =====
-- Newton's iteration doubles the number of correct low bits, from 1 to 64 in six rounds.
use native.Mathlib.Nat
use phantom_fhe.Base.{
  ℕ, zero, suc, ◌+◌, ◌-◌, ◌*◌, ◌/◌, ◌%◌, ◌^◌, ◌≤◌, ◌<◌, ◌≡◌, refl, sym, ap, ◌∙◌, u64, sub_u64,
  u64_mod, IsU64, arith,
}
use phantom_fhe.Base.Residues.{
  mul-mod_cong, mul-mod_cong₂, add-mod_cong, add-mod_cancel, mul-mod-mod,
}
use phantom_fhe.Ring.Montgomery.{newton, neg_inv_mod_pow2_64}

-- `(1 + m t)(1 - m t)` is 1 modulo the square, with `s` for the second factor.
square_cancels :
    (m t s : ℕ)
    → 0 < m * m
    → (s + (1 + m * t)) % (m * m) ≡ 2 % (m * m)
    → (1 + m * t) * s % (m * m) ≡ 1 % (m * m)
square_cancels m t s pos h = add-mod_cancel ((1 + m * t) * s) 1 (1 + 2 * (m * t)) (m * m) pos (
    sym (Nat.add-mul-mod_self_left _ (m * m) (t * t))
    ∙ ap (λ (n : ℕ). n % (m * m)) factored
    ∙ mul-mod_cong (s + (1 + m * t)) 2 (1 + m * t) (m * m) h
    ∙ ap (λ (n : ℕ). n % (m * m)) (omega arith))
  where
    factored :
        (1 + m * t) * s + (1 + 2 * (m * t)) + m * m * (t * t) ≡ (s + (1 + m * t)) * (1 + m * t)
    factored = grind arith

module _ (m c value x : ℕ) (large : 2 ≤ m) (whole : m * m * c ≡ u64_mod) where
  abbrev square : ℕ
  square = m * m

  square_pos : 0 < square
  square_pos = Nat.mul-le-mul {n₁ = 1} {m₁ = 1} {n₂ = m} {m₂ = m} (omega arith) (omega arith)

  -- The remainder by a factor of the modulus does not see the wrap.
  u64-mod_square : (a : ℕ) → u64 a % square ≡ a % square
  u64-mod_square a = rw (← whole) (Nat.mod-mod_of_dvd square a (Nat.dvd-mul_right square c))

  -- The second factor of a step and the product add up to 2, wraps aside.
  complement : (q : ℕ) → (sub_u64 2 (u64 q) + q) % square ≡ 2 % square
  complement q =
      add-mod_cong (sub_u64 2 (u64 q)) (2 + u64_mod - u64 q) q square
        (u64-mod_square (2 + u64_mod - u64 q))
      ∙ ap (λ (n : ℕ). n % square) (Nat.add_comm (2 + u64_mod - u64 q) q)
      ∙ add-mod_cong q (u64 q) (2 + u64_mod - u64 q) square (sym (u64-mod_square q))
      ∙ ap (λ (n : ℕ). n % square) regroup
      ∙ Nat.add-mul-mod_self_left 2 square c
    where
      regroup : u64 q + (2 + u64_mod - u64 q) ≡ 2 + square * c
      regroup = rw whole (omega arith)

  newton_doubles : value * x % m ≡ 1 → value * newton value x % square ≡ 1 % square
  unfolding newton
  newton_doubles h =
      sym (mul-mod-mod value (u64 (x * s)) square)
      ∙ ap (λ (n : ℕ). value * n % square) (u64-mod_square (x * s))
      ∙ mul-mod-mod value (x * s) square
      ∙ ap (λ (n : ℕ). n % square) (sym (Nat.mul_assoc value x s) ∙ ap (λ (n : ℕ). n * s) divided)
      ∙ square_cancels m (value * x / m) s square_pos
          (ap (λ (n : ℕ). (s + n) % square) (sym divided) ∙ complement (value * x))
    where
      s : ℕ
      s = sub_u64 2 (u64 (value * x))

      divided : value * x ≡ 1 + m * (value * x / m)
      divided = omega (arith, Nat.div-add-mod (value * x) m)

module _ (value : ℕ) (odd : value % 2 ≡ 1) where
  abbrev approx : ℕ → ℕ
  approx zero = value
  approx (suc n) = newton value (approx n)

  approx_zero : value * approx 0 % 2 ≡ 1
  approx_zero = mul-mod_cong₂ value 1 value 1 2 odd odd

  -- Six rounds: 2, 4, 8, 16, 32 and 64 correct bits.
  approx_six : value * approx 6 % u64_mod ≡ 1
  approx_six = newton_doubles (2 ^ 32) 1 value (approx 5) (omega arith) refl (
      newton_doubles (2 ^ 16) (2 ^ 32) value (approx 4) (omega arith) refl (
        newton_doubles (2 ^ 8) (2 ^ 48) value (approx 3) (omega arith) refl (
          newton_doubles (2 ^ 4) (2 ^ 56) value (approx 2) (omega arith) refl (
            newton_doubles (2 ^ 2) (2 ^ 60) value (approx 1) (omega arith) refl
              (newton_doubles 2 (2 ^ 62) value (approx 0) (omega arith) refl approx_zero)))))

  negation : (x : ℕ) → IsU64 x → value * x % u64_mod ≡ 1 → (value * sub_u64 0 x + 1) % u64_mod ≡ 0
  negation x word h =
      add-mod_cong (value * sub_u64 0 x) (value * (u64_mod - x)) 1 u64_mod (
        mul-mod-mod value (0 + u64_mod - x) u64_mod
        ∙ ap (λ (n : ℕ). value * n % u64_mod) (omega arith))
      ∙ ap (λ (n : ℕ). (value * (u64_mod - x) + n) % u64_mod) (sym h)
      ∙ Nat.add-mod-mod (value * (u64_mod - x)) (value * x) u64_mod
      ∙ ap (λ (n : ℕ). n % u64_mod)
          (sym (Nat.mul-add value (u64_mod - x) x) ∙ ap (λ (n : ℕ). value * n) (omega arith))
      ∙ Nat.mul-mod_left value u64_mod

  -- For an odd value the result is a word whose product with the value is -1 modulo 2 ^ 64.
  pub neg_inv_lem :
      ((value * neg_inv_mod_pow2_64 value + 1) % u64_mod ≡ 0) × IsU64 (neg_inv_mod_pow2_64 value)
  unfolding neg_inv_mod_pow2_64
  neg_inv_lem = (negation (approx 6) (unfold newton in omega arith) approx_six, omega arith)
