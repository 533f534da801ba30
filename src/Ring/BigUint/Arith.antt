-- ===== src/Ring/BigUint/Arith.antt =====
-- Addition, subtraction, multiplication by a word and comparison, as arithmetic on values.
use native.Mathlib.Nat
use phantom_fhe.Base.{
  ℕ, ◌+◌, ◌-◌, ◌*◌, ◌/◌, ◌^◌, ◌≤◌, ◌≡◌, refl, sym, ◌∙◌, List, [], ◌∷◌, ◌==◌, u64_mod, IsU64, length,
  All, arith, word-mul_carry, Bool-cases, ==_iff, inl, inr, true,
}
use phantom_fhe.Ring.BigUint.{
  BigUint, big_zero, add_limbs, add, sub_digit, sub_limbs, sub, mul_limbs, mul_u64, is_zero,
}
use phantom_fhe.Ring.BigUint.Value.{
  limbs_value, value, IsNormal, normalized-value, normalized-IsNormal,
}

add_limbs-value :
    (xs ys : List ℕ) (c : ℕ)
    → All IsU64 xs
    → All IsU64 ys
    → c ≤ 1
    → limbs_value (add_limbs xs ys c) ≡ limbs_value xs + limbs_value ys + c
unfolding add_limbs
add_limbs-value [] [] c h k l = ground arith
add_limbs-value [] (y ∷ ys) c h k l =
    omega (arith, add_limbs-value [] ys ((0 + y + c) / 2 ^ 64) tt k.1 (omega arith))
add_limbs-value (x ∷ xs) [] c h k l =
    omega (arith, add_limbs-value xs [] ((x + 0 + c) / 2 ^ 64) h.1 tt (omega arith))
add_limbs-value (x ∷ xs) (y ∷ ys) c h k l =
    omega (arith, add_limbs-value xs ys ((x + y + c) / 2 ^ 64) h.1 k.1 (omega arith))

add_limbs-words : (xs ys : List ℕ) (c : ℕ) → All IsU64 (add_limbs xs ys c)
unfolding add_limbs
add_limbs-words [] [] c = ground arith
add_limbs-words [] (y ∷ ys) c = (omega arith, add_limbs-words [] ys _)
add_limbs-words (x ∷ xs) [] c = (omega arith, add_limbs-words xs [] _)
add_limbs-words (x ∷ xs) (y ∷ ys) c = (omega arith, add_limbs-words xs ys _)

-- The sum of two normal forms is exact and in normal form.
pub add_lem :
    (x y : BigUint)
    → IsNormal x
    → IsNormal y
    → (value (add x y) ≡ value x + value y) × IsNormal (add x y)
unfolding add
add_lem x y h k = (
  normalized-value _
      ∙ add_limbs-value x.limbs y.limbs 0 h.words k.words (omega arith)
      ∙ Nat.add-zero _,
  normalized-IsNormal _ (add_limbs-words x.limbs y.limbs 0),
)

sub_digit_lem :
    (a b c : ℕ)
    → IsU64 a
    → IsU64 b
    → c ≤ 1
    → ((sub_digit a b c).0 + b + c ≡ a + u64_mod * (sub_digit a b c).1)
      × ((sub_digit a b c).1 ≤ 1)
      × IsU64 (sub_digit a b c).0
unfolding sub_digit
sub_digit_lem a b c h k l = ground arith

sub_limbs-value :
    (xs ys : List ℕ) (c : ℕ)
    → All IsU64 xs
    → All IsU64 ys
    → c ≤ 1
    → limbs_value ys + c ≤ limbs_value xs
    → limbs_value (sub_limbs xs ys c) + limbs_value ys + c ≡ limbs_value xs
unfolding sub_limbs
sub_limbs-value [] ys c h k l le = omega arith
sub_limbs-value (x ∷ xs) [] c h k l le =
    let digit = sub_digit_lem x 0 c h.0 (omega arith) l in
    omega (
      arith,
      digit,
      sub_limbs-value xs [] (sub_digit x 0 c).1 h.1 tt digit.1 (omega (arith, digit)),
    )
sub_limbs-value (x ∷ xs) (y ∷ ys) c h k l le =
    let digit = sub_digit_lem x y c h.0 k.0 l in
    omega (
      arith,
      digit,
      sub_limbs-value xs ys (sub_digit x y c).1 h.1 k.1 digit.1 (omega (arith, digit)),
    )

sub_limbs-words :
    (xs ys : List ℕ) (c : ℕ) → All IsU64 xs → All IsU64 ys → c ≤ 1 → All IsU64 (sub_limbs xs ys c)
unfolding sub_limbs
sub_limbs-words [] ys c h k l = tt
sub_limbs-words (x ∷ xs) [] c h k l =
    let digit = sub_digit_lem x 0 c h.0 (omega arith) l in
    (digit.2, sub_limbs-words xs [] _ h.1 tt digit.1)
sub_limbs-words (x ∷ xs) (y ∷ ys) c h k l =
    let digit = sub_digit_lem x y c h.0 k.0 l in (digit.2, sub_limbs-words xs ys _ h.1 k.1 digit.1)

-- For two normal forms, the subtrahend no larger, the difference is exact and in normal form.
pub sub_lem :
    (x y : BigUint)
    → IsNormal x
    → IsNormal y
    → value y ≤ value x
    → (value (sub x y) ≡ value x - value y) × IsNormal (sub x y)
unfolding sub
sub_lem x y h k le = (
  normalized-value _
      ∙ omega
          (arith, sub_limbs-value x.limbs y.limbs 0 h.words k.words (omega arith) (omega arith)),
  normalized-IsNormal _ (sub_limbs-words x.limbs y.limbs 0 h.words k.words (omega arith)),
)

mul_limbs-value :
    (xs : List ℕ) (s c : ℕ)
    → All IsU64 xs
    → IsU64 s
    → IsU64 c
    → limbs_value (mul_limbs xs s c) ≡ limbs_value xs * s + c
unfolding mul_limbs
mul_limbs-value [] s c h k l = ground arith
mul_limbs-value (x ∷ xs) s c h k l =
    omega (arith, mul_limbs-value xs s ((x * s + c) / 2 ^ 64) h.1 k (word-mul_carry x s c h.0 k l))

mul_limbs-words : (xs : List ℕ) (s c : ℕ) → All IsU64 (mul_limbs xs s c)
unfolding mul_limbs
mul_limbs-words [] s c = ground arith
mul_limbs-words (x ∷ xs) s c = (omega arith, mul_limbs-words xs s _)

pub big_zero-value : value big_zero ≡ 0
unfolding big_zero
big_zero-value = refl

pub big_zero-IsNormal : IsNormal big_zero
unfolding big_zero
big_zero-IsNormal = record { words = tt; trimmed = tt }

pub is_zero-value : (x : BigUint) → is_zero x ≡ true → value x ≡ 0
unfolding is_zero
is_zero-value x h = empty x.limbs h
  where
    empty : (xs : List ℕ) → (length xs == 0) ≡ true → limbs_value xs ≡ 0
    empty [] e = refl
    empty (y ∷ ys) e = absurd (ground arith)

-- The product of a normal form by a word is exact and in normal form.
pub mul_u64_lem :
    (x : BigUint) (s : ℕ)
    → IsNormal x
    → IsU64 s
    → (value (mul_u64 x s) ≡ value x * s) × IsNormal (mul_u64 x s)
unfolding mul_u64
mul_u64_lem x s h k = elim (Bool-cases (s == 0)) [
  | inl e ↦
      rw (e, (==_iff s 0).0 e) (big_zero-value ∙ sym (Nat.mul-zero (value x)), big_zero-IsNormal)
  | inr e ↦ elim (Bool-cases (is_zero x)) [
    | inl z ↦
        rw (e, z, is_zero-value x z) (big_zero-value ∙ sym (Nat.zero-mul s), big_zero-IsNormal)
    | inr z ↦
        rw (e, z)
          (
            normalized-value _
                ∙ mul_limbs-value x.limbs s 0 h.words k (omega arith)
                ∙ Nat.add-zero _,
            normalized-IsNormal _ (mul_limbs-words x.limbs s 0),
          )
  ]
]
