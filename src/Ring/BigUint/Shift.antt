-- ===== src/Ring/BigUint/Shift.antt =====
-- The bit operations on big integers in terms of their values.
use native.Mathlib.Nat
use phantom_fhe.Base.{
  ℕ, zero, suc, ◌+◌, ◌-◌, ◌*◌, ◌/◌, ◌%◌, ◌^◌, ◌≤◌, ◌<◌, ◌≡◌, refl, sym, ap, ◌∙◌, bit_or, List, [],
  ◌∷◌, ◌++◌, Bool-cases, inl, inr, ==_iff, ◌==◌, u64, u64_mod, IsU64, length, get_elem?, replicate,
  All, arith, ◌<◌, Bool-cases, inl, inr, ==_iff, if◌then◌else◌,
}
use phantom_fhe.Base.Bits.{bit_or_low}
use phantom_fhe.Base.Residues.{pow-add, mod_unique}
use phantom_fhe.Ring.BigUint.{BigUint, is_zero}
use phantom_fhe.Ring.BigUint.Arith.{is_zero-value}
use phantom_fhe.Ring.BigUint.Value.{
  limbs_value, value, IsNormal, normalized-value, normalized-IsNormal,
}
use phantom_fhe.Ring.BigUint.Bits.{
  leading_zeros, bit_length_from, bit_of_limb, bit_at, shl_bits, shl,
}

-- A power of two, of which the word size is made.
pub word-pow : (k : ℕ) → k ≤ 64 → 2 ^ k * 2 ^ (64 - k) ≡ u64_mod
word-pow k h =
    sym (pow-add 2 k (64 - k)) ∙ ap (λ (t : ℕ). 2 ^ t) {x = k + (64 - k)} {y = 64} (omega arith)

pub pow-pos : (k : ℕ) → 0 < 2 ^ k
pow-pos k = Nat.one-le-pow k 2 (omega arith)

leading_zeros_lem :
    (k x : ℕ) → x < 2 ^ k → (leading_zeros k x ≤ k) × (x < 2 ^ (k - leading_zeros k x))
unfolding leading_zeros
leading_zeros_lem zero x h = (omega arith, h)
leading_zeros_lem (suc k) x h = ground (arith, leading_zeros_lem k x, Nat.pow-suc 2 k)

pub bit_length_from_lem : (xs : List ℕ) → All IsU64 xs → limbs_value xs < 2 ^ bit_length_from xs
unfolding bit_length_from
bit_length_from_lem [] h = omega arith
bit_length_from_lem (x ∷ []) h = omega (arith, leading_zeros_lem 64 x h.0)
bit_length_from_lem (x ∷ y ∷ ys) h =
    rw (pow-add 2 64 (bit_length_from (y ∷ ys)))
      (omega (arith, h.0, bit_length_from_lem (y ∷ ys) h.1))

pub bit_length-le : (xs : List ℕ) → bit_length_from xs ≤ 64 * length xs
unfolding bit_length_from
bit_length-le [] = omega arith
bit_length-le (x ∷ []) = omega arith
bit_length-le (x ∷ y ∷ ys) = omega (arith, bit_length-le (y ∷ ys))

low_bit : (x v k : ℕ) → k < 64 → x / 2 ^ k % 2 ≡ (x + u64_mod * v) / 2 ^ k % 2
low_bit x v k h =
    let w = 2 ^ (63 - k) in
    let double : 2 ^ (64 - k) ≡ w * 2 =
      ap (λ (t : ℕ). 2 ^ t) {x = 64 - k} {y = suc (63 - k)} (omega arith)
      ∙ Nat.pow-suc 2 (63 - k) in
    let parts : x + u64_mod * v ≡ x + 2 ^ k * (2 * w * v) =
      ap (λ (t : ℕ). x + t * v) (sym (word-pow k (omega arith)))
      ∙ grind (arith, ap (λ (t : ℕ). 2 ^ k * t * v) double) in
    omega (
      arith,
      ap (λ (t : ℕ). t / 2 ^ k) parts,
      Nat.add-mul-div_left x (2 * w * v) (pow-pos k),
      Nat.mul_assoc 2 w v,
    )

upper_bits : (x v n : ℕ) → IsU64 x → (x + u64_mod * v) / 2 ^ (64 + n) ≡ v / 2 ^ n
upper_bits x v n h =
    rw (pow-add 2 64 n, sym (Nat.div-div-eq-div-mul (x + u64_mod * v) u64_mod (2 ^ n)))
      (ap (λ (t : ℕ). t / 2 ^ n) {x = (x + u64_mod * v) / u64_mod} (omega arith))

-- Bit `k` of limb `i`.
bit_of_limb_lem :
    (xs : List ℕ) (i k : ℕ)
    → All IsU64 xs
    → k < 64
    → bit_of_limb (get_elem? xs i) k ≡ (limbs_value xs / 2 ^ (64 * i + k) % 2 == 1)
unfolding bit_of_limb
bit_of_limb_lem [] i k h l = rw (Nat.zero-div (2 ^ (64 * i + k))) refl
bit_of_limb_lem (x ∷ xs) zero k h l =
    ap (λ (t : ℕ). t == 1) (low_bit x (limbs_value xs) k l)
    ∙ ap (λ (t : ℕ). limbs_value (x ∷ xs) / 2 ^ t % 2 == 1) {x = k} {y = 64 * 0 + k} (omega arith)
bit_of_limb_lem (x ∷ xs) (suc i) k h l =
    bit_of_limb_lem xs i k h.1 l
    ∙ ap (λ (t : ℕ). t % 2 == 1) (sym (upper_bits x (limbs_value xs) (64 * i + k) h.0))
    ∙ ap (λ (t : ℕ). limbs_value (x ∷ xs) / 2 ^ t % 2 == 1) {x = 64 + (64 * i + k)}
        {y = 64 * suc i + k} (omega arith)

pub bit_at_lem : (x : BigUint) (n : ℕ) → All IsU64 x.limbs → bit_at x n ≡ (value x / 2 ^ n % 2 == 1)
unfolding bit_at
bit_at_lem x n h =
    bit_of_limb_lem x.limbs (n / 64) (n % 64) h (omega arith)
    ∙ ap (λ (t : ℕ). value x / 2 ^ t % 2 == 1) {x = 64 * (n / 64) + n % 64} {y = n} (omega arith)

-- A limb shifted in its word, with the bits that come in from below.
pub record IsShifted (x k c digit carry : ℕ) : Type 0 where
  pub total : digit + u64_mod * carry ≡ x * 2 ^ k + c
  pub word : IsU64 digit
  pub small : carry < 2 ^ k

-- The bits that stay in the word, and those that leave it.
shl_parts :
    (x k : ℕ)
    → k ≤ 64
    → (x * 2 ^ k ≡ x / 2 ^ (64 - k) * u64_mod + x % 2 ^ (64 - k) * 2 ^ k)
      × (x % 2 ^ (64 - k) * 2 ^ k + 2 ^ k ≤ u64_mod)
shl_parts x k h =
    let w = 2 ^ (64 - k) in
    let p = 2 ^ k in
    let small : suc (x % w) * p ≤ w * p =
      Nat.mul-le-mul {n₁ = suc (x % w)} {m₁ = p} {n₂ = w} {m₂ = p} (Nat.mod-lt x (pow-pos (64 - k)))
        (omega arith) in
    (
      ap (λ (t : ℕ). t * p) (sym (Nat.div-add-mod x w)) ∙ rw (sym (word-pow k h)) (grind arith),
      omega (arith, small, word-pow k h, Nat.mul_comm w p, Nat.suc-mul (x % w) p),
    )

shl_limb :
    (x k c : ℕ)
    → k ≤ 64
    → IsU64 x
    → c < 2 ^ k
    → IsShifted x k c (bit_or (u64 (x * 2 ^ k)) c) (x / 2 ^ (64 - k))
shl_limb x k c h w l =
    let (parts, room) = shl_parts x k h in
    let stay : u64 (x * 2 ^ k) ≡ x % 2 ^ (64 - k) * 2 ^ k =
      ap (λ (t : ℕ). t % u64_mod) parts
      ∙ mod_unique (x / 2 ^ (64 - k)) (x % 2 ^ (64 - k) * 2 ^ k) u64_mod
          (omega (arith, room, pow-pos k)) in
    rw (stay, bit_or_low k (x % 2 ^ (64 - k)) c l)
      (record {
        total = omega (arith, parts);
        word = omega (arith, room);
        small = (Nat.div-lt_iff_lt-mul (pow-pos (64 - k))).1 (omega (arith, word-pow k h));
      })

shl_bits_lem :
    (xs : List ℕ) (k c : ℕ)
    → k ≤ 64
    → c < 2 ^ k
    → All IsU64 xs
    → (limbs_value (shl_bits xs k c) ≡ limbs_value xs * 2 ^ k + c) × All IsU64 (shl_bits xs k c)
unfolding shl_bits
shl_bits_lem [] k c h l all =
    ground (arith, Nat.pow-le-pow_right {n = 2} (omega arith) {i = k} {j = 64} h)
shl_bits_lem (x ∷ xs) k c h l all =
    let first = shl_limb x k c h all.0 l in
    let (total, words) = shl_bits_lem xs k _ h first.small all.1 in
    (grind (arith, first.total, total), (first.word, words))

zeros-value :
    (n : ℕ) (xs : List ℕ) → limbs_value (replicate n 0 ++ xs) ≡ limbs_value xs * 2 ^ (64 * n)
zeros-value zero xs = omega arith
zeros-value (suc n) xs = rw (zeros-value n xs) (
    grind arith
    ∙ ap (λ (t : ℕ). limbs_value xs * t) (sym (pow-add 2 64 (64 * n)))
    ∙ ap (λ (t : ℕ). limbs_value xs * 2 ^ t) {x = 64 + 64 * n} {y = 64 * suc n} (omega arith))

zeros-words : (n : ℕ) (xs : List ℕ) → All IsU64 xs → All IsU64 (replicate n 0 ++ xs)
zeros-words zero xs h = h
zeros-words (suc n) xs h = (omega arith, zeros-words n xs h)

within_limbs :
    (xs : List ℕ) (k : ℕ)
    → k < 64
    → All IsU64 xs
    → (limbs_value (if k == 0 then xs else shl_bits xs k 0) ≡ limbs_value xs * 2 ^ k)
      × All IsU64 (if k == 0 then xs else shl_bits xs k 0)
within_limbs xs k l h = elim (Bool-cases (k == 0)) [
  | inl e ↦ rw (e, (==_iff k 0).0 e) (omega arith, h)
  | inr e ↦
      let (total, words) = shl_bits_lem xs k 0 (omega arith) (pow-pos k) h in
      rw e (total ∙ Nat.add-zero _, words)
]

-- A shift to the left multiplies by the power of two, and keeps the normal form.
pub shl_lem :
    (x : BigUint) (n : ℕ) → IsNormal x → (value (shl x n) ≡ value x * 2 ^ n) × IsNormal (shl x n)
unfolding shl
shl_lem x n h = elim (Bool-cases (is_zero x)) [
  | inl z ↦ rw (z, is_zero-value x z) (sym (Nat.zero-mul (2 ^ n)), h)
  | inr z ↦ elim (Bool-cases (n == 0)) [
    | inl e ↦ rw (z, e, (==_iff n 0).0 e) (omega arith, h)
    | inr e ↦
        let (total, words) = within_limbs x.limbs (n % 64) (omega arith) h.words in
        let exponent : 2 ^ (n % 64) * 2 ^ (64 * (n / 64)) ≡ 2 ^ n =
          sym (pow-add 2 (n % 64) (64 * (n / 64)))
          ∙ ap (λ (t : ℕ). 2 ^ t) {x = n % 64 + 64 * (n / 64)} {y = n} (omega arith) in
        rw (z, e)
          (
            normalized-value _
                ∙ zeros-value (n / 64) _
                ∙ ap (λ (t : ℕ). t * 2 ^ (64 * (n / 64))) total
                ∙ Nat.mul_assoc (value x) (2 ^ (n % 64)) (2 ^ (64 * (n / 64)))
                ∙ ap (λ (t : ℕ). value x * t) exponent,
            normalized-IsNormal _ (zeros-words (n / 64) _ words),
          )
  ]
]
