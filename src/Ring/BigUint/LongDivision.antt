-- ===== src/Ring/BigUint/LongDivision.antt =====
-- The binary long division is the division of the values.
use native.Mathlib.Nat
use phantom_fhe.Base.{
  ℕ, zero, suc, ◌+◌, ◌*◌, ◌/◌, ◌%◌, ◌^◌, ◌≤◌, ◌<◌, ◌≡◌, refl, sym, ap, ◌∙◌, List, [], ◌∷◌, true,
  false, Bool-cases, inl, inr, ==_iff, ◌==◌, ltb, ltb→lt, ltb→ge, ok, IsU64, length, get_or,
  replicate, length-set, length-replicate, All, arith,
}
use phantom_fhe.Ring.BigUint.{BigUint, big_zero, from_u64, is_zero, cmp}
use phantom_fhe.Ring.BigUint.Value.{
  limbs_value, value, IsNormal, normalized-value, normalized-IsNormal,
}
use phantom_fhe.Ring.BigUint.Arith.{
  add_lem, sub_lem, big_zero-value, big_zero-IsNormal, is_zero-value,
}
use phantom_fhe.Ring.BigUint.Compare.{cmp_lem}
use phantom_fhe.Ring.BigUint.Division.{divmod_u64_lem}
use phantom_fhe.Ring.BigUint.Shift.{shl_lem, bit_at_lem}
use phantom_fhe.Ring.BigUint.SetBit.{set_bit_lem, bit_length_lem}
use phantom_fhe.Ring.BigUint.Bits.{
  bit_length, bit_at, shl, set_bit, is_less, next_remainder, take_bit, divide_bits, divmod_word,
  divmod_bits, divmod,
}

pub from_u64_lem : (n : ℕ) → IsU64 n → (value (from_u64 n) ≡ n) × IsNormal (from_u64 n)
unfolding from_u64
from_u64_lem n h = elim (Bool-cases (n == 0)) [
  | inl e ↦ rw (e, (==_iff n 0).0 e) (big_zero-value, big_zero-IsNormal)
  | inr e ↦ rw e (omega arith, record { words = (h, tt); trimmed = ground (arith, e) })
]

-- The bits from `bit` up are divided: the quotient's other bits are 0.
pub record IsDivided (x d : BigUint) (bit : ℕ) (state : List ℕ × BigUint) : Type 0 where
  pub top : ℕ
  pub quotient : limbs_value state.0 ≡ top * 2 ^ bit
  pub total : top * value d + value state.1 ≡ value x / 2 ^ bit
  pub below : value state.1 < value d
  pub size : length state.0 ≡ length x.limbs
  pub words : All IsU64 state.0
  pub normal : IsNormal state.1

next_remainder_lem :
    (x r : BigUint) (bit : ℕ)
    → All IsU64 x.limbs
    → IsNormal r
    → (value (next_remainder x bit r) ≡ value r * 2 + value x / 2 ^ bit % 2)
      × IsNormal (next_remainder x bit r)
unfolding next_remainder
next_remainder_lem x r bit h k =
    let (doubled, normal) = shl_lem r 1 k in
    let (one, single) = from_u64_lem 1 (omega arith) in
    let (sum, both) = add_lem (shl r 1) (from_u64 1) normal single in
    let bit_value = bit_at_lem x bit h in
    elim (Bool-cases (bit_at x bit)) [
      | inl e ↦
          let set : value x / 2 ^ bit % 2 ≡ 1 = (==_iff _ 1).0 (sym bit_value ∙ e) in
          rw e (omega (arith, doubled, one, sum, set), both)
      | inr e ↦
          let clear : value x / 2 ^ bit % 2 ≡ 0 = ground (arith, sym bit_value ∙ e) in
          rw e (omega (arith, doubled, clear), normal)
    ]

pub is_less_lem :
    (x y : BigUint) → IsNormal x → IsNormal y → is_less (cmp x y) ≡ ltb (value x) (value y)
unfolding is_less
is_less_lem x y h k = rw (cmp_lem x y h k) (ground arith)

set_bit-length : (xs : List ℕ) (n : ℕ) → length (set_bit xs n) ≡ length xs
unfolding set_bit
set_bit-length xs n = length-set xs _ _

half : (n bit : ℕ) → n / 2 ^ bit ≡ 2 * (n / 2 ^ suc bit) + n / 2 ^ bit % 2
half n bit =
    omega (arith, Nat.div-div-eq-div-mul n (2 ^ bit) 2, ap (λ (t : ℕ). n / t) (Nat.pow-suc 2 bit))

zeros-value : (n : ℕ) → limbs_value (replicate n 0) ≡ 0
zeros-value zero = refl
zeros-value (suc n) = omega (arith, zeros-value n)

zeros-words : (n : ℕ) → All IsU64 (replicate n 0)
zeros-words zero = tt
zeros-words (suc n) = (omega arith, zeros-words n)

module _ (x d : BigUint) (h : IsNormal x) (k : IsNormal d) where
  take_bit_lem :
      (bit : ℕ) (q : List ℕ) (r : BigUint)
      → suc bit ≤ 64 * length x.limbs
      → IsDivided x d (suc bit) (q, r)
      → IsDivided x d bit (take_bit d bit q (next_remainder x bit r))
  unfolding take_bit
  take_bit_lem bit q r fits inv =
      let next = next_remainder x bit r in
      let (grown, normal) = next_remainder_lem x r bit h.words inv.normal in
      let less = is_less_lem next d normal k in
      let shifted : limbs_value q ≡ 2 * inv.top * 2 ^ bit =
        inv.quotient ∙ ap (λ (t : ℕ). inv.top * t) (Nat.pow-suc 2 bit) ∙ grind arith in
      elim (Bool-cases (is_less (cmp next d))) [
        | inl e ↦ rw e (record {
          top = 2 * inv.top;
          quotient = shifted;
          total = grind (arith, half (value x) bit, inv.total, grown);
          below = ltb→lt _ _ (sym less ∙ e);
          size = inv.size;
          words = inv.words;
          normal = normal;
        })
        | inr e ↦
            let fits_once : value d ≤ value next = ltb→ge _ _ (sym less ∙ e) in
            let (difference, normal') = sub_lem next d normal k fits_once in
            let (set, words) =
              set_bit_lem q bit inv.top (omega (arith, inv.size)) inv.words inv.quotient in
            rw e (record {
              top = 2 * inv.top + 1;
              quotient = omega (arith, set, shifted);
              total = grind (arith, half (value x) bit, inv.total, grown, difference);
              below = omega (arith, difference, grown, inv.below);
              size = set_bit-length q bit ∙ inv.size;
              words = words;
              normal = normal';
            })
      ]

  divide_bits_lem :
      (bit : ℕ) (state : List ℕ × BigUint)
      → bit ≤ 64 * length x.limbs
      → IsDivided x d bit state
      → IsDivided x d 0 (divide_bits x d bit state)
  unfolding divide_bits
  divide_bits_lem zero state l inv = inv
  divide_bits_lem (suc bit) (q, r) l inv =
      divide_bits_lem bit _ (omega arith) (take_bit_lem bit q r l inv)

  divmod_bits_lem :
      0 < value d
      → (value (divmod_bits x d).0 * value d + value (divmod_bits x d).1 ≡ value x)
        × (value (divmod_bits x d).1 < value d)
        × IsNormal (divmod_bits x d).0
        × IsNormal (divmod_bits x d).1
  unfolding divmod_bits
  divmod_bits_lem pos =
      let start : List ℕ × BigUint = (replicate (length x.limbs) 0, big_zero) in
      let (all_bits, room) = bit_length_lem x h.words in
      let initial : IsDivided x d (bit_length x) start = record {
        top = 0;
        quotient = omega (arith, zeros-value (length x.limbs));
        total = omega (arith, big_zero-value, Nat.div-eq_of_lt all_bits);
        below = omega (arith, big_zero-value);
        size = length-replicate (length x.limbs) 0;
        words = zeros-words (length x.limbs);
        normal = big_zero-IsNormal;
      } in
      let final = divide_bits_lem (bit_length x) start room initial in
      (
        omega (
          arith,
          final.total,
          ap (λ (t : ℕ). t * value d) {y = final.top}
              (normalized-value (divide_bits x d (bit_length x) start).0
                ∙ final.quotient
                ∙ omega arith),
        ),
        final.below,
        normalized-IsNormal _ final.words,
        final.normal,
      )

pub record IsQuotient (x d q r : BigUint) : Type 0 where
  pub total : value q * value d + value r ≡ value x
  pub below : value r < value d
  pub normal : IsNormal q
  pub normal_rest : IsNormal r

divmod_word_lem :
    (x : BigUint) (n : ℕ)
    → IsNormal x
    → 0 < n
    → IsU64 n
    → (q : BigUint) × (r : BigUint) × (divmod_word x n ≡ ok (q, r))
      × (value q * n + value r ≡ value x)
      × (value r < n)
      × IsNormal q
      × IsNormal r
unfolding divmod_word
divmod_word_lem x n h pos fits =
    let (q, r, result, total, below, normal) = divmod_u64_lem n pos fits x h in
    let (rest, normal_rest) = from_u64_lem r (omega (arith, below, fits)) in
    (
      q,
      from_u64 r,
      rw result refl,
      omega (arith, total, rest),
      omega (arith, below, rest),
      normal,
      normal_rest,
    )

one_limb :
    (xs : List ℕ)
    → (length xs == 1) ≡ true
    → All IsU64 xs
    → (limbs_value xs ≡ get_or xs 0 0) × IsU64 (get_or xs 0 0)
one_limb [] e h = absurd (ground arith)
one_limb (x ∷ []) e h = (omega arith, h.0)
one_limb (x ∷ y ∷ ys) e h = absurd (ground (arith, e))

-- For normal forms and a divisor that is not 0, the division ends without a panic, and returns the
-- quotient and the remainder of the values, in normal form.
pub divmod_lem :
    (x d : BigUint)
    → IsNormal x
    → IsNormal d
    → 0 < value d
    → (q : BigUint) × (r : BigUint) × (divmod x d ≡ ok (q, r)) × IsQuotient x d q r
unfolding divmod
divmod_lem x d h k pos =
    let nonzero : is_zero d ≡ false = elim (Bool-cases (is_zero d)) [
      | inl z ↦ absurd (omega (arith, is_zero-value d z))
      | inr z ↦ z
    ] in
    let less = is_less_lem x d h k in
    rw nonzero (elim (Bool-cases (is_less (cmp x d))) [
      | inl e ↦ (
        big_zero,
        x,
        rw e refl,
        record {
          total = omega (arith, ap (λ (t : ℕ). t * value d) big_zero-value);
          below = ltb→lt _ _ (sym less ∙ e);
          normal = big_zero-IsNormal;
          normal_rest = h;
        },
      )
      | inr e ↦ elim (Bool-cases (length d.limbs == 1)) [
        | inl one ↦
            let (known, word) = one_limb d.limbs one k.words in
            let (q, r, result, total, below, normal, normal_rest) =
              divmod_word_lem x (get_or d.limbs 0 0) h (omega (arith, known)) word in
            (
              q,
              r,
              rw (e, one) result,
              record {
                total = omega (arith, total, ap (λ (t : ℕ). value q * t) known);
                below = omega (arith, below, known);
                normal = normal;
                normal_rest = normal_rest;
              },
            )
        | inr many ↦
            let (total, below, normal, normal_rest) = divmod_bits_lem x d h k pos in
            (
              (divmod_bits x d).0,
              (divmod_bits x d).1,
              rw (e, many) refl,
              record { total = total; below = below; normal = normal; normal_rest = normal_rest },
            )
      ]
    ])
