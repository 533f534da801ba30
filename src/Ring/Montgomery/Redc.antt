-- ===== src/Ring/Montgomery/Redc.antt =====
-- `redc` divides by R modulo the modulus, and `mul` is multiplication of residues.
use native.Mathlib.Nat
use phantom_fhe.Base.{
  ℕ, ◌+◌, ◌-◌, ◌*◌, ◌/◌, ◌%◌, ◌^◌, ◌≤◌, ◌<◌, ◌≡◌, sym, ap, ◌∙◌, u64, u128, u64_mod, u128_mod, IsU64,
  arith, leb, if◌then◌else◌, Bool-cases, inl, inr,
}
use phantom_fhe.Base.Residues.{mul-mod_cong, mul-mod_cong₂, add-mod_cong, mod-mul-mod, mul-mod-mod}
use phantom_fhe.Ring.Reduce.{montgomery_max_modulus}
use phantom_fhe.Ring.Montgomery.{
  MontgomeryReducer, redc, to_montgomery, from_montgomery, mul_montgomery, montgomery_mul,
}

-- What `new` establishes.
pub record IsMontgomery (r : MontgomeryReducer) : Type 0 where
  pub positive : 0 < r.modulus
  pub below : r.modulus < montgomery_max_modulus
  pub inverse : (r.modulus * r.m_prime + 1) % u64_mod ≡ 0
  pub square : r.r2 ≡ u128_mod % r.modulus

module _ (r : MontgomeryReducer) (ok_r : IsMontgomery r) where
  open r use {modulus, m_prime, r2}

  -- The multiple of the modulus that is added makes the sum a multiple of R.
  multiple-of-r : (t : ℕ) → (t + u64 (u64 t * m_prime) * modulus) % u64_mod ≡ 0
  multiple-of-r t =
      ap (λ (n : ℕ). n % u64_mod) (Nat.add_comm t (u64 (u64 t * m_prime) * modulus))
      ∙ add-mod_cong (u64 (u64 t * m_prime) * modulus) (t * m_prime * modulus) t u64_mod (
          mod-mul-mod (u64 t * m_prime) modulus u64_mod
          ∙ mul-mod_cong (u64 t * m_prime) (t * m_prime) modulus u64_mod
              (mod-mul-mod t m_prime u64_mod))
      ∙ ap (λ (n : ℕ). n % u64_mod) factored
      ∙ sym (mul-mod-mod t (modulus * m_prime + 1) u64_mod)
      ∙ ap (λ (n : ℕ). t * n % u64_mod) ok_r.inverse
      ∙ ap (λ (n : ℕ). n % u64_mod) (Nat.mul-zero t)
    where
      factored : t * m_prime * modulus + t ≡ t * (modulus * m_prime + 1)
      factored = grind arith

  redc_word :
      (t : ℕ)
      → t < modulus * u64_mod
      → (n : ℕ) × (n < modulus + modulus)
        × (n * u64_mod ≡ t + u64 (u64 t * m_prime) * modulus)
        × (u64 (u128 (t + u64 (u64 t * m_prime) * modulus) / 2 ^ 64) ≡ n)
  redc_word t h =
      let u = u64 (u64 t * m_prime) in
      let word : u < u64_mod = omega arith in
      let scaled : u * modulus ≤ (u64_mod - 1) * modulus =
        Nat.mul-le-mul_right modulus (omega arith) in
      let bound : t + u * modulus < (modulus + modulus) * u64_mod = omega arith in
      let exact : (t + u * modulus) % u64_mod ≡ 0 = multiple-of-r t in
      ((t + u * modulus) / u64_mod, omega arith, omega arith, omega (arith, ok_r.below))

  corrected :
      (n t u : ℕ)
      → n < modulus + modulus
      → n * u64_mod ≡ t + u * modulus
      → let w = if leb modulus n then n - modulus else n in
        (w * u64_mod % modulus ≡ t % modulus) × (w < modulus)
  corrected n t u bound total = elim (Bool-cases (leb modulus n)) [
    | inl large ↦
        let over : modulus ≤ n = ground arith in
        rw large (
          sym (Nat.add-mul-mod_self_left ((n - modulus) * u64_mod) modulus u64_mod)
              ∙ ap (λ (k : ℕ). k % modulus)
                  (sym (Nat.add-mul (n - modulus) modulus u64_mod)
                    ∙ ap (λ (k : ℕ). k * u64_mod) (omega arith)
                    ∙ total)
              ∙ Nat.add-mul-mod_self_right t u modulus,
          omega arith,
        )
    | inr small ↦
        rw small
          (ap (λ (k : ℕ). k % modulus) total ∙ Nat.add-mul-mod_self_right t u modulus, ground arith)
  ]

  -- For a reducer whose modulus is below 2 ^ 63 with `m_prime` the negated inverse, and t below
  -- the modulus times 2 ^ 64, the result is below the modulus and its product with 2 ^ 64 is
  -- congruent to t.
  pub redc_lem :
      (t : ℕ)
      → t < modulus * u64_mod
      → (redc r t * u64_mod % modulus ≡ t % modulus) × (redc r t < modulus)
  unfolding redc
  redc_lem t h =
      let (n, bound, total, word) = redc_word t h in
      rw word (corrected n t (u64 (u64 t * m_prime)) bound total)

  -- R has an inverse modulo an odd modulus, so that a factor R cancels.
  cancel-r : (a b : ℕ) → a * u64_mod % modulus ≡ b * u64_mod % modulus → a % modulus ≡ b % modulus
  cancel-r a b h = sym (undo a) ∙ mul-mod_cong (a * u64_mod) (b * u64_mod) j modulus h ∙ undo b
    where
      j : ℕ
      j = (modulus * m_prime + 1) / u64_mod

      unit : u64_mod * j ≡ 1 + modulus * m_prime
      unit = omega (arith, ok_r.inverse)

      undo : (x : ℕ) → x * u64_mod * j % modulus ≡ x % modulus
      undo x =
          ap (λ (k : ℕ). k % modulus)
            (Nat.mul_assoc x u64_mod j ∙ ap (λ (k : ℕ). x * k) unit ∙ spread)
          ∙ Nat.add-mul-mod_self_left x modulus (x * m_prime)
        where
          spread : x * (1 + modulus * m_prime) ≡ x + modulus * (x * m_prime)
          spread = grind arith

  product-lt : (a b : ℕ) → a < u64_mod → b < modulus → a * b < modulus * u64_mod
  product-lt a b h k =
      let row : a * b ≤ u64_mod * b = Nat.mul-le-mul_right b (omega arith) in omega arith

  to_montgomery_lem :
      (a : ℕ)
      → IsU64 a
      → (to_montgomery r a % modulus ≡ a * u64_mod % modulus) × (to_montgomery r a < modulus)
  unfolding to_montgomery
  to_montgomery_lem a h =
      let r2-lt : r2 < modulus = rw ok_r.square (Nat.mod-lt u128_mod ok_r.positive) in
      let (scaled, bound) = redc_lem (a * r2) (product-lt a r2 h r2-lt) in
      (cancel-r (redc r (a * r2)) (a * u64_mod) (scaled ∙ squared), bound)
    where
      squared : a * r2 % modulus ≡ a * u64_mod * u64_mod % modulus
      squared =
          ap (λ (n : ℕ). a * n % modulus) ok_r.square
          ∙ mul-mod-mod a u128_mod modulus
          ∙ ap (λ (n : ℕ). n % modulus) (omega arith)

  -- For a reducer whose modulus is below 2 ^ 63 with `m_prime` the negated inverse and `r2` the
  -- remainder of 2 ^ 128, and words a and b, `mul` returns the product modulo the modulus.
  pub montgomery_mul_lem : (a b : ℕ) → IsU64 a → IsU64 b → montgomery_mul r a b ≡ a * b % modulus
  unfolding montgomery_mul mul_montgomery from_montgomery
  montgomery_mul_lem a b h k =
      let (x_residue, x-lt) = to_montgomery_lem a h in
      let (y_residue, y-lt) = to_montgomery_lem b k in
      let word : modulus < u64_mod = omega (arith, ok_r.below) in
      let (z_residue, z-lt) = redc_lem (x * y) (product-lt x y (omega arith) y-lt) in
      let (f_residue, f-lt) = redc_lem z (omega (arith, ok_r.positive)) in
      sym (Nat.mod-eq_of_lt f-lt)
      ∙ cancel-r f (a * b) (
          cancel-r (f * u64_mod) (a * b * u64_mod) (
            mul-mod_cong (f * u64_mod) z u64_mod modulus f_residue
            ∙ z_residue
            ∙ mul-mod_cong₂ x (a * u64_mod) y (b * u64_mod) modulus x_residue y_residue
            ∙ ap (λ (n : ℕ). n % modulus) (omega arith)))
    where
      x : ℕ
      x = to_montgomery r a

      y : ℕ
      y = to_montgomery r b

      z : ℕ
      z = redc r (x * y)

      f : ℕ
      f = redc r z
