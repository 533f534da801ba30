-- ===== src/Schemes/Params/Rotation.antt =====
-- The automorphism elements of a rotation are powers of five.
use native.Mathlib.Nat
use phantom_fhe.Base.{
  ℕ, zero, suc, ◌*◌, ◌/◌, ◌%◌, ◌^◌, ◌≤◌, ◌<◌, ◌≡◌, refl, sym, ap, ◌∙◌, arith, false, ◌==◌,
}
use phantom_fhe.Base.Residues.{mul-mod-mod, mod-eq_small, even-mod-odd}
use phantom_fhe.Schemes.Params.{BgvParams, times_five, rotation_steps, rotation_element}

times_five_lem :
    (two_n steps element : ℕ)
    → element < two_n
    → times_five two_n steps element ≡ 5 ^ steps * element % two_n
unfolding times_five
times_five_lem two_n zero element h =
    sym (mod-eq_small _ two_n (omega (arith, h))) ∙ ap (λ (t : ℕ). t % two_n) (omega arith)
times_five_lem two_n (suc steps) element h =
    times_five_lem two_n steps (element * 5 % two_n) (omega (arith, h))
    ∙ mul-mod-mod (5 ^ steps) (element * 5) two_n
    ∙ ap (λ (t : ℕ). t % two_n) (regroup (5 ^ steps))
    ∙ ap (λ (t : ℕ). t * element % two_n) (sym (Nat.pow-succ' 5 steps))
  where
    regroup : (p : ℕ) → p * (element * 5) ≡ 5 * p * element
    regroup p = rw (Nat.mul_comm element 5, Nat.mul_comm 5 p) (sym (Nat.mul_assoc p 5 element))

-- A power of five is odd.
power-odd : (n : ℕ) → 5 ^ n % 2 ≡ 1
power-odd zero = refl
power-odd (suc n) = omega (arith, power-odd n)

-- At a degree of two or more, the automorphism element of a rotation by `shift` is five to the
-- power `shift` modulo half the degree, modulo twice the degree, and it is odd.
pub rotation_element_lem :
    (params : BgvParams) (shift : ℕ)
    → 2 ≤ params.ring.degree.get
    → (rotation_element params shift
        ≡ 5 ^ (shift % (params.ring.degree.get / 2)) % (2 * params.ring.degree.get))
      × (rotation_element params shift % 2 ≡ 1)
unfolding rotation_element rotation_steps
rotation_element_lem params shift h =
    let n = params.ring.degree.get in
    let row : (n / 2 == 0) ≡ false = ground (arith, h) in
    let power : times_five (2 * n) (shift % (n / 2)) 1 ≡ 5 ^ (shift % (n / 2)) % (2 * n) =
      times_five_lem (2 * n) (shift % (n / 2)) 1 (omega (arith, h))
      ∙ ap (λ (t : ℕ). t % (2 * n)) (Nat.mul-one (5 ^ (shift % (n / 2)))) in
    rw (row, power) (refl, even-mod-odd (5 ^ (shift % (n / 2))) n (power-odd (shift % (n / 2))))
