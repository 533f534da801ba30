-- ===== src/Ring/Barrett/Product.antt =====
-- The product on limbs is exact, and never leaves the array.
use phantom_fhe.Base.{
  ℕ, ◌+◌, ◌*◌, ◌/◌, ◌^◌, ◌<◌, ◌≡◌, ap, ap₂, ◌∙◌, List, [], ◌∷◌, ok, Result, ◌>>=◌, u64, u64_mod,
  u128_mod, IsU64, IsU128, arith, word-mul_fits,
}
use phantom_fhe.Base.Bits.{bit_or_high}
use phantom_fhe.Ring.Error.{RingError}
use phantom_fhe.Ring.Barrett.{accumulate, mul_row, mul_rows, propagate, mul_wide_128, halves}

-- One step loses nothing: the word and the carry together hold the sum.
pub accumulate_lem :
    (a b w c : ℕ)
    → IsU64 a
    → IsU64 b
    → IsU64 w
    → IsU64 c
    → ((accumulate a b w c).0 + u64_mod * (accumulate a b w c).1 ≡ a * b + w + c)
      × IsU64 (accumulate a b w c).0
      × IsU64 (accumulate a b w c).1
unfolding accumulate
accumulate_lem a b w c h k l m =
    let fits : a * b + w + c < u128_mod = word-mul_fits a b w c h k l m in
    (omega arith, omega arith, omega arith)

propagate_two :
    (r s c : ℕ) → IsU64 c → propagate 5 (r ∷ s ∷ 0 ∷ 0 ∷ []) 2 c ≡ ok (r ∷ s ∷ c ∷ 0 ∷ [])
unfolding propagate
propagate_two r s c h = ground arith

propagate_three :
    (r s t c : ℕ) → IsU64 c → propagate 5 (r ∷ s ∷ t ∷ 0 ∷ []) 3 c ≡ ok (r ∷ s ∷ t ∷ c ∷ [])
unfolding propagate
propagate_three r s t c h = ground arith

-- The four partial products of two limbs each.
module _ (a0 a1 b0 b1 : ℕ) where
  abbrev p00 : ℕ × ℕ
  p00 = accumulate a0 b0 0 0

  abbrev p01 : ℕ × ℕ
  p01 = accumulate a0 b1 0 p00.1

  abbrev p10 : ℕ × ℕ
  p10 = accumulate a1 b0 p01.0 0

  abbrev p11 : ℕ × ℕ
  p11 = accumulate a1 b1 p01.1 p10.1

  module _ (ha0 : IsU64 a0) (ha1 : IsU64 a1) (hb0 : IsU64 b0) (hb1 : IsU64 b1) where
    abbrev h00 : (p00.0 + u64_mod * p00.1 ≡ a0 * b0 + 0 + 0) × IsU64 p00.0 × IsU64 p00.1
    h00 = accumulate_lem a0 b0 0 0 ha0 hb0 (omega arith) (omega arith)

    abbrev h01 : (p01.0 + u64_mod * p01.1 ≡ a0 * b1 + 0 + p00.1) × IsU64 p01.0 × IsU64 p01.1
    h01 = accumulate_lem a0 b1 0 p00.1 ha0 hb1 (omega arith) h00.2

    abbrev h10 : (p10.0 + u64_mod * p10.1 ≡ a1 * b0 + p01.0 + 0) × IsU64 p10.0 × IsU64 p10.1
    h10 = accumulate_lem a1 b0 p01.0 0 ha1 hb0 h01.1 (omega arith)

    abbrev h11 : (p11.0 + u64_mod * p11.1 ≡ a1 * b1 + p01.1 + p10.1) × IsU64 p11.0 × IsU64 p11.1
    h11 = accumulate_lem a1 b1 p01.1 p10.1 ha1 hb1 h01.2 h10.2

    mul_rows_lem :
        mul_rows (a0 ∷ a1 ∷ []) (b0 ∷ b1 ∷ []) 0 (0 ∷ 0 ∷ 0 ∷ 0 ∷ [])
        ≡ ok (p00.0 ∷ p10.0 ∷ p11.0 ∷ p11.1 ∷ [])
    unfolding mul_rows mul_row
    mul_rows_lem =
        rw (propagate_two p00.0 p01.0 p01.1 h01.2, propagate_three p00.0 p10.0 p11.0 p11.1 h11.2)

    product_value :
        p00.0 + u64_mod * p10.0 + u128_mod * (p11.0 + u64_mod * p11.1)
        ≡ (a0 + u64_mod * a1) * (b0 + u64_mod * b1)
    product_value = omega (arith, h00.0, h01.0, h10.0, h11.0)

split_value : (a : ℕ) → IsU128 a → u64 a + u64_mod * u64 (a / 2 ^ 64) ≡ a
split_value a h = omega arith

-- For two 128-bit numbers the product on limbs is returned without an index out of range, its
-- halves make up the exact product, and the low half is a 128-bit number.
pub mul_wide_128_lem :
    (a b : ℕ)
    → IsU128 a
    → IsU128 b
    → (hi : ℕ) × (lo : ℕ) × (mul_wide_128 a b ≡ ok (hi, lo))
      × (hi * u128_mod + lo ≡ a * b)
      × IsU128 lo
unfolding mul_wide_128 halves
mul_wide_128_lem a b h k =
    let ha : IsU64 (u64 (a / 2 ^ 64)) = omega arith in
    let hb : IsU64 (u64 (b / 2 ^ 64)) = omega arith in
    let la : IsU64 (u64 a) = omega arith in
    let lb : IsU64 (u64 b) = omega arith in
    let a1 = u64 (a / 2 ^ 64) in
    let b1 = u64 (b / 2 ^ 64) in
    let low = p00 (u64 a) a1 (u64 b) b1 in
    let mid = p10 (u64 a) a1 (u64 b) b1 in
    let top = p11 (u64 a) a1 (u64 b) b1 in
    let low_word : IsU64 low.0 = (h00 (u64 a) a1 (u64 b) b1 la ha lb hb).1 in
    let mid_word : IsU64 mid.0 = (h10 (u64 a) a1 (u64 b) b1 la ha lb hb).1 in
    let top_word : IsU64 top.0 = (h11 (u64 a) a1 (u64 b) b1 la ha lb hb).1 in
    (
      top.0 + top.1 * 2 ^ 64,
      low.0 + mid.0 * 2 ^ 64,
      ap (λ (o : Result RingError (List ℕ)). o >>= λ r. ok (halves r))
            (mul_rows_lem (u64 a) a1 (u64 b) b1 la ha lb hb)
          ∙ ap₂ (λ (hi lo : ℕ). ok (hi, lo)) (bit_or_high 64 top.0 top.1 top_word)
              (bit_or_high 64 low.0 mid.0 low_word),
      omega (arith, product_value (u64 a) a1 (u64 b) b1 la ha lb hb)
          ∙ ap₂ ◌*◌ (split_value a h) (split_value b k),
      omega arith,
    )
