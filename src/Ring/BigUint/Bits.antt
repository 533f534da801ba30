-- ===== src/Ring/BigUint/Bits.antt =====
-- crates/phantom-ring/src/bignum.rs: the binary long division of one big integer by another, and
-- the bit operations it stands on.
use phantom_fhe.Base.{
  ℕ, zero, suc, ◌+◌, ◌-◌, ◌*◌, ◌/◌, ◌%◌, ◌^◌, bit_or, Bool, true, false, List, [], ◌∷◌, ◌++◌,
  Option, none, some, Result, ok, panic, if◌then◌else◌, ltb, ◌==◌, ◌||◌, Ordering, u64, length,
  get_elem?, get_or, set, replicate, ◌>>=◌,
}
use phantom_fhe.Ring.Error.{RingError}
use phantom_fhe.Ring.BigUint.{
  BigUint, big_zero, from_u64, is_zero, normalized, cmp, add, sub, divmod_u64,
}

-- `u64::leading_zeros`, from bit `k` down.
unfoldable pub leading_zeros : ℕ → ℕ → ℕ
leading_zeros zero x = 0
leading_zeros (suc k) x = let rest = leading_zeros k x in if ltb x (2 ^ k) then suc rest else 0

unfoldable pub bit_length_from : List ℕ → ℕ
bit_length_from [] = 0
bit_length_from (x ∷ []) = 64 - leading_zeros 64 x
bit_length_from (x ∷ y ∷ ys) = 64 + bit_length_from (y ∷ ys)

unfoldable pub bit_length : BigUint → ℕ
bit_length x = bit_length_from x.limbs

unfoldable pub bit_of_limb : Option ℕ → ℕ → Bool
bit_of_limb none k = false
bit_of_limb (some limb) k = limb / 2 ^ k % 2 == 1

unfoldable pub bit_at : BigUint → ℕ → Bool
bit_at x n = bit_of_limb (get_elem? x.limbs (n / 64)) (n % 64)

-- The carry is the part that leaves the limb below.
unfoldable pub shl_bits : List ℕ → ℕ → ℕ → List ℕ
shl_bits [] k carry = if carry == 0 then [] else carry ∷ []
shl_bits (x ∷ xs) k carry = bit_or (u64 (x * 2 ^ k)) carry ∷ shl_bits xs k (x / 2 ^ (64 - k))

unfoldable pub shl : BigUint → ℕ → BigUint
shl x bits =
    if is_zero x || bits == 0
    then x
    else normalized (
        replicate (bits / 64) 0
        ++ (if bits % 64 == 0 then x.limbs else shl_bits x.limbs (bits % 64) 0))

-- `quotient[bit / 64] |= 1u64 << (bit % 64)`, `bit` being in range wherever it is called.
unfoldable pub set_bit : List ℕ → ℕ → List ℕ
set_bit limbs bit = set limbs (bit / 64) (bit_or (get_or limbs (bit / 64) 0) (1 * 2 ^ (bit % 64)))

-- `Less` or not.
unfoldable pub is_less : Ordering → Bool
is_less Ordering.lt = true
is_less Ordering.eq = false
is_less Ordering.gt = false

unfoldable pub next_remainder : BigUint → ℕ → BigUint → BigUint
next_remainder x bit remainder =
    if bit_at x bit then add (shl remainder 1) (from_u64 1) else shl remainder 1

unfoldable pub take_bit : BigUint → ℕ → List ℕ → BigUint → List ℕ × BigUint
take_bit divisor bit quotient remainder =
    if is_less (cmp remainder divisor)
    then (quotient, remainder)
    else (set_bit quotient bit, sub remainder divisor)

-- The bits below `bit`, from the most significant one.
unfoldable pub divide_bits : BigUint → BigUint → ℕ → List ℕ × BigUint → List ℕ × BigUint
divide_bits x divisor zero state = state
divide_bits x divisor (suc bit) (quotient, remainder) =
    divide_bits x divisor bit (take_bit divisor bit quotient (next_remainder x bit remainder))

unfoldable pub divmod_word : BigUint → ℕ → Result RingError (BigUint × BigUint)
divmod_word x divisor = do (q, r) ← divmod_u64 x divisor; ok (q, from_u64 r)

unfoldable pub divmod_bits : BigUint → BigUint → BigUint × BigUint
divmod_bits x divisor =
    let (quotient, remainder) =
      divide_bits x divisor (bit_length x) (replicate (length x.limbs) 0, big_zero) in
    (normalized quotient, remainder)

unfoldable pub divmod : BigUint → BigUint → Result RingError (BigUint × BigUint)
divmod x divisor =
    if is_zero divisor
    then panic
    else if is_less (cmp x divisor)
    then ok (big_zero, x)
    else if length divisor.limbs == 1
    then divmod_word x (get_or divisor.limbs 0 0)
    else ok (divmod_bits x divisor)
