-- ===== src/Ring/Barrett.antt =====
-- crates/phantom-ring/src/reduce/barrett.rs: the reducer, and the 128 by 128 bit product on limbs.
pub mod Product
pub mod Quotient
pub mod Setup
use phantom_fhe.Base.{
  ℕ, zero, suc, ◌+◌, ◌-◌, ◌*◌, ◌/◌, ◌%◌, ◌^◌, bit_or, List, [], ◌∷◌, Result, ok, panic, ◌>>=◌, err,
  if◌then◌else◌, ltb, leb, u64, u128, sub_u128, index, get_or, set,
}
use phantom_fhe.Ring.Error.{RingError, modulus_too_small}
use phantom_fhe.Ring.BigUint
use phantom_fhe.Ring.BigUint.{BigUint}

pub record BarrettReducer : Type 0 where
  pub modulus : ℕ
  pub mu : ℕ

-- `result[idx] += a * b + carry` on a word, and the carry that is left.
unfoldable pub accumulate : ℕ → ℕ → ℕ → ℕ → ℕ × ℕ
accumulate a b word carry = let sum = u128 (a * b + word + carry) in (u64 sum, sum / 2 ^ 64)

-- The inner loop over the limbs of `b`, at `idx = i + j`.
unfoldable pub mul_row : ℕ → List ℕ → ℕ → List ℕ → ℕ → Result RingError (List ℕ × ℕ)
mul_row a [] idx result carry = ok (result, carry)
mul_row a (b ∷ bs) idx result carry = do
  word ← index result idx
  mul_row a bs (idx + 1) (set result idx (accumulate a b word carry).0)
      (accumulate a b word carry).1

-- `while carry > 0 { result[k] += carry; k += 1 }`; the index leaves the array within the fuel.
unfoldable pub propagate : ℕ → List ℕ → ℕ → ℕ → Result RingError (List ℕ)
propagate zero result k carry = panic
propagate (suc fuel) result k carry =
    let more = do
      word ← index result k
      propagate fuel (set result k (u64 (word + carry))) (k + 1) ((word + carry) / 2 ^ 64)
    in if ltb 0 carry then more else ok result

-- The outer loop over the limbs of `a`, at position `i`.
unfoldable pub mul_rows : List ℕ → List ℕ → ℕ → List ℕ → Result RingError (List ℕ)
mul_rows [] bs i result = ok result
mul_rows (a ∷ as') bs i result = do
  (row, carry) ← mul_row a bs i result 0
  next ← propagate 5 row (i + 2) carry
  mul_rows as' bs (i + 1) next

abbrev pub split_limbs : ℕ → List ℕ
split_limbs a = u64 a ∷ u64 (a / 2 ^ 64) ∷ []

abbrev pub join_limbs : ℕ → ℕ → ℕ
join_limbs lo hi = bit_or lo (hi * 2 ^ 64)

-- The high and the low 128 bits of the four limbs.
unfoldable pub halves : List ℕ → ℕ × ℕ
halves r = (join_limbs (get_or r 2 0) (get_or r 3 0), join_limbs (get_or r 0 0) (get_or r 1 0))

unfoldable pub mul_wide_128 : ℕ → ℕ → Result RingError (ℕ × ℕ)
mul_wide_128 a b = do
  r ← mul_rows (split_limbs a) (split_limbs b) 0 (0 ∷ 0 ∷ 0 ∷ 0 ∷ [])
  ok (halves r)

unfoldable pub correct_once : ℕ → ℕ → ℕ
correct_once r modulus = if leb modulus r then r - modulus else r

unfoldable pub reduce : BarrettReducer → ℕ → Result RingError ℕ
reduce r value = do
  product ← mul_wide_128 value r.mu
  let q3 = u64 product.0
  let rest = sub_u128 value (u128 (q3 * r.modulus))
  ok (u64 (correct_once (correct_once rest r.modulus) r.modulus))

unfoldable pub barrett_new : ℕ → Result RingError BarrettReducer
barrett_new modulus = if ltb modulus 2 then err (modulus_too_small modulus) else (do
  (mu, _) ← BigUint.divmod_u64 (BigUint.shl_limbs (BigUint.from_u64 1) 2) modulus
  ok (record { modulus = modulus; mu = BigUint.to_u128 mu }))
