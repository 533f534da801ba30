-- ===== src/Ring/Reduce/Power.antt =====
-- Square and multiply computes the power, and Fermat's inverse is an inverse.
use mathlib.Core.WellFounded.{Acc}
use native.Mathlib.Nat
use phantom_fhe.Base.{
  ℕ, zero, suc, ◌+◌, ◌-◌, ◌*◌, ◌/◌, ◌%◌, ◌^◌, ◌<◌, ◌≡◌, sym, ap, ◌∙◌, IsU64, arith, if◌then◌else◌,
  ◌==◌, Bool-cases, ==_iff, sub_u64, inl, inr,
}
use phantom_fhe.Base.Order.{lt_wf}
use phantom_fhe.Base.Residues.{mul-mod_cong₂, mod-pow, pow-add, mul-mod-mod}
use phantom_fhe.Ring.Reduce.{half-lt, pow_loop, pow_mod, inv_mod, mul_mod}
use phantom_fhe.Ring.Reduce.Range.{mul_mod_lem, mul_mod-lt}

pow-one : (a : ℕ) → a ^ 1 ≡ a
pow-one a = Nat.pow-suc a 0 ∙ ap (λ (t : ℕ). t * a) (Nat.pow-zero a) ∙ Nat.one-mul a

mul-pow : (a b e : ℕ) → (a * b) ^ e ≡ a ^ e * b ^ e
mul-pow a b zero = rw (Nat.pow-zero (a * b), Nat.pow-zero a, Nat.pow-zero b)
mul-pow a b (suc e) =
    rw (Nat.pow-suc (a * b) e, Nat.pow-suc a e, Nat.pow-suc b e, mul-pow a b e) (grind arith)

-- The binary digits of the exponent.
square-pow : (b e : ℕ) → (b * b) ^ (e / 2) * b ^ (e % 2) ≡ b ^ e
square-pow b e =
    rw (mul-pow b b (e / 2), ← pow-add b (e / 2) (e / 2), ← pow-add b (e / 2 + e / 2) (e % 2))
      (ap (λ (t : ℕ). b ^ t) (omega arith))

module _ (m : ℕ) (pos : 1 < m) (fits : IsU64 m) where
  abbrev next_acc : ℕ → ℕ → ℕ → ℕ
  next_acc acc base e = if e % 2 == 1 then mul_mod acc base m else acc

  next_acc_lem : (acc base e : ℕ) → next_acc acc base e % m ≡ acc * base ^ (e % 2) % m
  next_acc_lem acc base e = elim (Bool-cases (e % 2 == 1)) [
    | inl odd ↦
        rw (odd, (==_iff (e % 2) 1).0 odd, mul_mod_lem m (omega arith) fits acc base)
          (Nat.mod-mod (acc * base) m ∙ ap (λ (t : ℕ). acc * t % m) (sym (pow-one base)))
    | inr even ↦
        let zero_digit : e % 2 ≡ 0 = ground arith in
        rw (even, zero_digit, Nat.pow-zero base, Nat.mul-one acc)
  ]

  pow_loop-step :
      (acc base e : ℕ)
      → next_acc acc base e * mul_mod base base m ^ (e / 2) % m ≡ acc * base ^ e % m
  pow_loop-step acc base e =
      mul-mod_cong₂ _ (acc * base ^ (e % 2)) _ ((base * base) ^ (e / 2)) m (next_acc_lem acc base e)
        (rw (mul_mod_lem m (omega arith) fits base base) (mod-pow (base * base) (e / 2) m))
      ∙ ap (λ (t : ℕ). t % m) regroup
    where
      regroup : acc * base ^ (e % 2) * (base * base) ^ (e / 2) ≡ acc * base ^ e
      regroup =
          Nat.mul_assoc acc (base ^ (e % 2)) ((base * base) ^ (e / 2))
          ∙ ap (λ (t : ℕ). acc * t) (Nat.mul_comm (base ^ (e % 2)) _ ∙ square-pow base e)

  next_acc-lt : (acc base e : ℕ) → acc < m → next_acc acc base e < m
  next_acc-lt acc base e h = ground (arith, mul_mod-lt m (omega arith) fits acc base)

  pow_loop_lem :
      (acc base exp : ℕ) (w : Acc ◌<◌ exp)
      → acc < m
      → pow_loop m acc base exp w ≡ acc * base ^ exp % m
  unfolding pow_loop
  pow_loop_lem acc base exp (Acc.intro zero _) h =
      rw (Nat.pow-zero base, Nat.mul-one acc) (sym (Nat.mod-eq_of_lt h))
  pow_loop_lem acc base exp (Acc.intro (suc e) smaller) h =
      pow_loop_lem (next_acc acc base (suc e)) (mul_mod base base m) (suc e / 2)
        (smaller (suc e / 2) (half-lt e)) (next_acc-lt acc base (suc e) h)
      ∙ pow_loop-step acc base (suc e)

  -- For a word modulus above 1 the loop of squarings computes the power modulo the modulus.
  pub pow_mod_lem : (base exp : ℕ) → pow_mod base exp m ≡ base ^ exp % m
  unfolding pow_mod
  pow_mod_lem base exp =
      pow_loop_lem 1 (base % m) exp (lt_wf.apply exp) pos
      ∙ ap (λ (t : ℕ). t % m) (Nat.one-mul _)
      ∙ mod-pow base exp m

  -- For a word modulus m above 1 and a value whose power of m - 1 is 1 modulo m, `inv_mod` gives
  -- the inverse.
  pub mul_mod-inv_mod :
      (value : ℕ) → value ^ (m - 1) % m ≡ 1 → mul_mod value (inv_mod value m) m ≡ 1
  unfolding inv_mod
  mul_mod-inv_mod value fermat =
      rw (mul_mod_lem m (omega arith) fits, exponent, pow_mod_lem value (m - 2))
        (mul-mod-mod value (value ^ (m - 2)) m
          ∙ ap (λ (t : ℕ). t % m) (sym (Nat.pow-succ' value (m - 2)))
          ∙ ap (λ (t : ℕ). value ^ t % m) (omega arith)
          ∙ fermat)
    where
      exponent : sub_u64 m 2 ≡ m - 2
      exponent = omega arith
