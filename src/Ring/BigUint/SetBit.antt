-- ===== src/Ring/BigUint/SetBit.antt =====
-- Setting a bit of a big integer, and its bit length, in terms of its value.
use native.Mathlib.Nat
use phantom_fhe.Base.{
  ℕ, zero, suc, ◌+◌, ◌-◌, ◌*◌, ◌/◌, ◌%◌, ◌^◌, ◌≤◌, ◌<◌, ◌≡◌, sym, ap, ◌∙◌, bit_or, List, [], ◌∷◌,
  u64_mod, IsU64, length, get_or, set, All, arith, ◌<◌,
}
use phantom_fhe.Base.Bits.{bit_or_low}
use phantom_fhe.Base.Residues.{pow-add}
use phantom_fhe.Ring.BigUint.{BigUint}
use phantom_fhe.Ring.BigUint.Value.{limbs_value, value}
use phantom_fhe.Ring.BigUint.Bits.{bit_length, set_bit}
use phantom_fhe.Ring.BigUint.Shift.{word-pow, pow-pos, bit_length_from_lem, bit_length-le}

low_zeros : (x v k c : ℕ) → k ≤ 64 → x + u64_mod * v ≡ c * 2 ^ k → x ≡ x / 2 ^ k * 2 ^ k
low_zeros x v k c h e =
    let w = 2 ^ (64 - k) in
    let zero_rest : x % 2 ^ k ≡ 0 =
      sym (Nat.add-mul-mod_self_left x (2 ^ k) (w * v))
      ∙ ap (λ (t : ℕ). (x + t) % 2 ^ k)
          (sym (Nat.mul_assoc (2 ^ k) w v) ∙ ap (λ (t : ℕ). t * v) (word-pow k h))
      ∙ ap (λ (t : ℕ). t % 2 ^ k) e
      ∙ Nat.mul-mod_left c (2 ^ k) in
    omega (arith, zero_rest, Nat.div-add-mod' x (2 ^ k))

set_low_bit :
    (x v k c : ℕ)
    → k < 64
    → IsU64 x
    → x + u64_mod * v ≡ c * 2 ^ suc k
    → (bit_or x (1 * 2 ^ k) ≡ x + 2 ^ k) × IsU64 (bit_or x (1 * 2 ^ k))
set_low_bit x v k c h word e =
    let p = 2 ^ suc k in
    let w = 2 ^ (64 - suc k) in
    let high : x ≡ x / p * p = low_zeros x v (suc k) c h e in
    let below : 1 * 2 ^ k < p = omega (arith, Nat.pow-suc 2 k, pow-pos k) in
    let or : bit_or x (1 * 2 ^ k) ≡ x + 2 ^ k =
      ap (λ (t : ℕ). bit_or t (1 * 2 ^ k)) high
      ∙ bit_or_low (suc k) (x / p) (1 * 2 ^ k) below
      ∙ omega (arith, high) in
    let room : suc (x / p) * p ≤ w * p =
      Nat.mul-le-mul {n₁ = suc (x / p)} {m₁ = p} {n₂ = w} {m₂ = p}
        ((Nat.div-lt_iff_lt-mul (pow-pos (suc k))).1
          (omega (arith, word, word-pow (suc k) h, Nat.mul_comm w p)))
        (omega arith) in
    (
      or,
      omega (
        arith,
        or,
        room,
        high,
        below,
        word-pow (suc k) h,
        Nat.mul_comm w p,
        Nat.suc-mul (x / p) p,
      ),
    )

-- Setting a bit of limb `i`, no lower bit of the number being set.
set_limb_bit :
    (xs : List ℕ) (i k c : ℕ)
    → k < 64
    → i < length xs
    → All IsU64 xs
    → limbs_value xs ≡ c * 2 ^ (suc (64 * i + k))
    → (limbs_value (set xs i (bit_or (get_or xs i 0) (1 * 2 ^ k)))
        ≡ limbs_value xs + 2 ^ (64 * i + k))
      × All IsU64 (set xs i (bit_or (get_or xs i 0) (1 * 2 ^ k)))
set_limb_bit [] i k c h l all e = absurd (omega arith)
set_limb_bit (x ∷ xs) zero k c h l all e =
    let (total, word) =
      set_low_bit x (limbs_value xs) k c h all.0
        (e ∙ ap (λ (t : ℕ). c * 2 ^ suc t) {x = 64 * 0 + k} {y = k} (omega arith)) in
    (
      omega (arith, total, ap (λ (t : ℕ). 2 ^ t) {x = k} {y = 64 * 0 + k} (omega arith)),
      (word, all.1),
    )
set_limb_bit (x ∷ xs) (suc i) k c h l all e =
    let d = c * 2 ^ suc (64 * i + k) in
    let exponent : (j : ℕ) → 2 ^ (64 + j) ≡ u64_mod * 2 ^ j = pow-add 2 64 in
    let whole : limbs_value (x ∷ xs) ≡ u64_mod * d =
      e
      ∙ ap (λ (t : ℕ). c * 2 ^ t) {x = suc (64 * suc i + k)} {y = 64 + suc (64 * i + k)}
          (omega arith)
      ∙ ap (λ (t : ℕ). c * t) (exponent (suc (64 * i + k)))
      ∙ grind arith in
    let (total, words) =
      set_limb_bit xs i k c h (omega arith) all.1 (omega (arith, whole, all.0)) in
    (
      omega (
        arith,
        total,
        exponent (64 * i + k),
        ap (λ (t : ℕ). 2 ^ t) {x = 64 + (64 * i + k)} {y = 64 * suc i + k} (omega arith),
      ),
      (all.0, words),
    )

pub set_bit_lem :
    (xs : List ℕ) (n c : ℕ)
    → n < 64 * length xs
    → All IsU64 xs
    → limbs_value xs ≡ c * 2 ^ suc n
    → (limbs_value (set_bit xs n) ≡ limbs_value xs + 2 ^ n) × All IsU64 (set_bit xs n)
unfolding set_bit
set_bit_lem xs n c h all e =
    let (total, words) =
      set_limb_bit xs (n / 64) (n % 64) c (omega arith) (omega arith) all
        (e ∙ ap (λ (t : ℕ). c * 2 ^ suc t) {x = n} {y = 64 * (n / 64) + n % 64} (omega arith)) in
    (
      total
          ∙ ap (λ (t : ℕ). limbs_value xs + 2 ^ t) {x = 64 * (n / 64) + n % 64} {y = n}
              (omega arith),
      words,
    )

-- The bits below the bit length are all there are, and they fit the limbs.
pub bit_length_lem :
    (x : BigUint)
    → All IsU64 x.limbs
    → (value x < 2 ^ bit_length x) × (bit_length x ≤ 64 * length x.limbs)
unfolding bit_length
bit_length_lem x h = (bit_length_from_lem x.limbs h, bit_length-le x.limbs)
