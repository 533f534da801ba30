-- ===== src/Ring/Gcd.antt =====
-- `gcd` of crates/phantom-ring/src/ring.rs, by recursion on its second argument.
use mathlib.Core.WellFounded.{Acc}
use native.Mathlib.Nat
use native.Mathlib.Decide.{dec_lt}
use phantom_fhe.Base.{ℕ, zero, suc, ◌+◌, ◌*◌, ◌/◌, ◌%◌, ◌^◌, ◌<◌, ◌≡◌, sym, ap, ◌∙◌, arith}
use phantom_fhe.Base.Order.{lt_wf}
use phantom_fhe.Base.Residues.{mod-mul-mod, mul-mod}

rest-lt : (a c : ℕ) → a % suc c < suc c
rest-lt a c = omega arith

unfoldable pub euclid : (a b : ℕ) → Acc ◌<◌ b → ℕ
unfolding rest-lt
euclid a b (Acc.intro zero below) = a
euclid a b (Acc.intro (suc c) below) = euclid (suc c) (a % suc c) (below (a % suc c) (rest-lt a c))

unfoldable pub gcd : ℕ → ℕ → ℕ
unfolding euclid lt_wf
gcd a b = euclid a b (lt_wf.apply b)

-- A multiple of `d` stays one under a factor, and a remainder of multiples is a multiple.
mul-multiple : (y z d : ℕ) → y % d ≡ 0 → y * z % d ≡ 0
mul-multiple y z d h =
    sym (mod-mul-mod y z d)
    ∙ ap (λ (t : ℕ). t * z % d) h
    ∙ ap (λ (t : ℕ). t % d) (Nat.zero-mul z)
    ∙ Nat.zero-mod d

rest-multiple : (a b x d : ℕ) → a * x % d ≡ 0 → b * x % d ≡ 0 → a % b * x % d ≡ 0
rest-multiple a b x d h k =
    ap (λ (t : ℕ). t % d) (sym (Nat.add-zero (a % b * x)))
    ∙ ap (λ (t : ℕ). (a % b * x + t) % d) (sym (mul-multiple (b * x) (a / b) d k))
    ∙ Nat.add-mod-mod (a % b * x) (b * x * (a / b)) d
    ∙ ap (λ (t : ℕ). t % d) regroup
    ∙ h
  where
    regroup : a % b * x + b * x * (a / b) ≡ a * x
    regroup = omega (arith, ap (λ (t : ℕ). t * x) (Nat.div-add-mod a b))

euclid-multiple :
    (x d a b : ℕ) (w : Acc ◌<◌ b) → a * x % d ≡ 0 → b * x % d ≡ 0 → euclid a b w * x % d ≡ 0
unfolding euclid
euclid-multiple x d a b (Acc.intro zero below) h k = h
euclid-multiple x d a b (Acc.intro (suc c) below) h k =
    euclid-multiple x d (suc c) (a % suc c) (below (a % suc c) (rest-lt a c)) k
      (rest-multiple a (suc c) x d h k)

-- With coprime factors, what is a multiple under both is a multiple.
pub coprime-multiple : (a b x d : ℕ) → gcd a b ≡ 1 → a * x % d ≡ 0 → b * x % d ≡ 0 → x % d ≡ 0
unfolding gcd
coprime-multiple a b x d one h k =
    ap (λ (t : ℕ). t % d) (sym (Nat.one-mul x) ∙ ap (λ (t : ℕ). t * x) (sym one))
    ∙ euclid-multiple x d a b (lt_wf.apply b) h k

-- What divides the divisor and the remainder divides the number.
divisor-whole : (a b g : ℕ) → b % g ≡ 0 → a % b % g ≡ 0 → a % g ≡ 0
divisor-whole a b g h k =
    ap (λ (t : ℕ). t % g) (sym (Nat.div-add-mod a b))
    ∙ sym (Nat.add-mod-mod (b * (a / b)) (a % b) g)
    ∙ ap (λ (t : ℕ). (b * (a / b) + t) % g) k
    ∙ ap (λ (t : ℕ). t % g) (Nat.add-zero (b * (a / b)))
    ∙ mul-multiple b (a / b) g h

euclid-divides : (a b : ℕ) (w : Acc ◌<◌ b) → (a % euclid a b w ≡ 0) × (b % euclid a b w ≡ 0)
unfolding euclid
euclid-divides a b (Acc.intro zero below) = (Nat.mod_self a, Nat.zero-mod a)
euclid-divides a b (Acc.intro (suc c) below) =
    let (left, right) = euclid-divides (suc c) (a % suc c) (below (a % suc c) (rest-lt a c)) in
    (divisor-whole a (suc c) _ left right, left)

-- The result divides both operands.
pub gcd-divides : (a b : ℕ) → (a % gcd a b ≡ 0) × (b % gcd a b ≡ 0)
unfolding gcd
gcd-divides a b = euclid-divides a b (lt_wf.apply b)

-- A number that is odd times another, and even, has an even cofactor.
cofactor-even : (g y : ℕ) → g % 2 ≡ 1 → g * y % 2 ≡ 0 → y % 2 ≡ 0
cofactor-even g y odd even =
    omega (arith, sym even, sym (mul-mod g y 2) ∙ ap (λ (t : ℕ). t * (y % 2) % 2) odd)

-- An odd number that divides twice another divides it.
odd_divisor-half : (g p : ℕ) → g % 2 ≡ 1 → (p + p) % g ≡ 0 → p % g ≡ 0
odd_divisor-half g p odd h = ap (λ (t : ℕ). t % g) half ∙ Nat.mul-mod_right g (y / 2)
  where
    y : ℕ
    y = (p + p) / g

    whole : g * y ≡ p + p
    whole = omega (arith, Nat.div-add-mod (p + p) g, h)

    even : y % 2 ≡ 0
    even = cofactor-even g y odd (ap (λ (t : ℕ). t % 2) whole ∙ omega arith)

    double : y / 2 + y / 2 ≡ y
    double = omega (arith, even)

    half : p ≡ g * (y / 2)
    half = omega (arith, whole, ap (λ (t : ℕ). g * t) double, Nat.mul-add g (y / 2) (y / 2))

-- An odd number that divides a power of two is one.
odd_divisor-power : (e g : ℕ) → g % 2 ≡ 1 → 2 ^ e % g ≡ 0 → g ≡ 1
odd_divisor-power zero g odd h = elim (dec_lt 1 g) [
  | yes large ↦ absurd (omega (arith, h, Nat.mod-eq_of_lt large))
  | no small ↦ omega (arith, odd)
]
odd_divisor-power (suc e) g odd h =
    odd_divisor-power e g odd
      (odd_divisor-half g (2 ^ e) odd (ap (λ (t : ℕ). t % g) (sym (Nat.two-pow-succ e)) ∙ h))

divisor-odd : (g a : ℕ) → a % 2 ≡ 1 → a % g ≡ 0 → g % 2 ≡ 1
divisor-odd g a odd h = elim (dec_lt 0 (g % 2)) [
  | yes some_bit ↦ omega (arith, some_bit)
  | no even ↦ absurd (
      omega (
        arith,
        odd,
        ap (λ (t : ℕ). t % 2) (Nat.div-add-mod a g),
        h,
        mul-multiple g (a / g) 2 (omega (arith, even)),
      ))
]

-- An odd number and a power of two are coprime.
pub gcd-odd-power : (a e : ℕ) → a % 2 ≡ 1 → gcd a (2 ^ e) ≡ 1
gcd-odd-power a e odd =
    let (left, right) = gcd-divides a (2 ^ e) in
    odd_divisor-power e (gcd a (2 ^ e)) (divisor-odd (gcd a (2 ^ e)) a odd left) right
