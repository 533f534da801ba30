-- ===== src/Ring/BigUint.antt =====
-- crates/phantom-ring/src/bignum.rs: unsigned integers as little-endian limbs in base 2 ^ 64.
-- A loop from the least significant limb is a recursion on the list, and a loop from the most
-- significant one takes the tail first.
pub mod Value
pub mod Arith
pub mod Compare
pub mod Division
pub mod Bits
pub mod Shift
pub mod SetBit
pub mod LongDivision
use phantom_fhe.Base.{
  ℕ, zero, suc, ◌+◌, ◌-◌, ◌*◌, ◌/◌, ◌%◌, ◌^◌, ◌<◌, max, compare, Ordering, bit_or, Bool, true,
  false, List, [], ◌∷◌, ◌++◌, Option, none, some, Result, ok, panic, if◌then◌else◌, ltb, leb, ◌==◌,
  u64, u64_mod, length, get_or, set, replicate,
}
use phantom_fhe.Ring.Error.{RingError}

pub record BigUint : Type 0 where
  pub limbs : List ℕ

unfoldable pub big_zero : BigUint
big_zero = record { limbs = [] }

unfoldable pub from_u64 : ℕ → BigUint
from_u64 value = if value == 0 then big_zero else record { limbs = value ∷ [] }

unfoldable pub to_u128 : BigUint → ℕ
to_u128 x = bit_or (get_or x.limbs 0 0) (get_or x.limbs 1 0 * 2 ^ 64)

unfoldable pub checked_to_u128 : BigUint → Option ℕ
checked_to_u128 x = if ltb 2 (length x.limbs) then none else some (to_u128 x)

unfoldable pub is_zero : BigUint → Bool
is_zero x = length x.limbs == 0

unfoldable pub shl_limbs : BigUint → ℕ → BigUint
shl_limbs x n = if is_zero x then big_zero else record { limbs = replicate n 0 ++ x.limbs }

-- One limb in front of a normalized list.
unfoldable pub push_limb : ℕ → List ℕ → List ℕ
push_limb x [] = if x == 0 then [] else x ∷ []
push_limb x (y ∷ ys) = x ∷ y ∷ ys

-- `while limbs.last() == Some(&0) { limbs.pop(); }`
unfoldable pub pop_zeros : List ℕ → List ℕ
pop_zeros [] = []
pop_zeros (x ∷ xs) = push_limb x (pop_zeros xs)

unfoldable pub normalized : List ℕ → BigUint
normalized limbs = record { limbs = pop_zeros limbs }

-- `Equal` on a limb goes on to the one below it.
unfoldable pub then_with : Ordering → Ordering → Ordering
then_with Ordering.lt o = Ordering.lt
then_with Ordering.eq o = o
then_with Ordering.gt o = Ordering.gt

unfoldable pub cmp_limbs : List ℕ → List ℕ → Ordering
cmp_limbs [] ys = Ordering.eq
cmp_limbs (x ∷ xs) [] = Ordering.eq
cmp_limbs (x ∷ xs) (y ∷ ys) = then_with (cmp_limbs xs ys) (compare x y)

unfoldable pub cmp : BigUint → BigUint → Ordering
cmp x y = then_with (compare (length x.limbs) (length y.limbs)) (cmp_limbs x.limbs y.limbs)

unfoldable pub add_limbs : List ℕ → List ℕ → ℕ → List ℕ
add_limbs [] [] carry = if ltb 0 carry then u64 carry ∷ [] else []
add_limbs [] (y ∷ ys) carry = u64 (0 + y + carry) ∷ add_limbs [] ys ((0 + y + carry) / 2 ^ 64)
add_limbs (x ∷ xs) [] carry = u64 (x + 0 + carry) ∷ add_limbs xs [] ((x + 0 + carry) / 2 ^ 64)
add_limbs (x ∷ xs) (y ∷ ys) carry = u64 (x + y + carry) ∷ add_limbs xs ys ((x + y + carry) / 2 ^ 64)

unfoldable pub add : BigUint → BigUint → BigUint
add x y = normalized (add_limbs x.limbs y.limbs 0)

-- The digit and the borrow of one limb of a difference; `i128` in the source.
unfoldable pub sub_digit : ℕ → ℕ → ℕ → ℕ × ℕ
sub_digit a b borrow =
    if ltb a (b + borrow) then (a + 2 ^ 64 - (b + borrow), 1) else (a - (b + borrow), 0)

unfoldable pub sub_limbs : List ℕ → List ℕ → ℕ → List ℕ
sub_limbs [] ys borrow = []
sub_limbs (x ∷ xs) [] borrow = (sub_digit x 0 borrow).0 ∷ sub_limbs xs [] (sub_digit x 0 borrow).1
sub_limbs (x ∷ xs) (y ∷ ys) borrow =
    (sub_digit x y borrow).0 ∷ sub_limbs xs ys (sub_digit x y borrow).1

unfoldable pub sub : BigUint → BigUint → BigUint
sub x y = normalized (sub_limbs x.limbs y.limbs 0)

unfoldable pub mul_limbs : List ℕ → ℕ → ℕ → List ℕ
mul_limbs [] scalar carry = if ltb 0 carry then u64 carry ∷ [] else []
mul_limbs (x ∷ xs) scalar carry =
    u64 (x * scalar + carry) ∷ mul_limbs xs scalar ((x * scalar + carry) / 2 ^ 64)

unfoldable pub mul_u64 : BigUint → ℕ → BigUint
mul_u64 x scalar =
    if scalar == 0
    then big_zero
    else if is_zero x
    then big_zero
    else normalized (mul_limbs x.limbs scalar 0)

-- Quotient limbs and remainder; `current` is `(remainder << 64) | limb`.
unfoldable pub divmod_limbs : List ℕ → ℕ → List ℕ × ℕ
divmod_limbs [] divisor = ([], 0)
divmod_limbs (x ∷ xs) divisor =
    let (quotient, remainder) = divmod_limbs xs divisor in
    let current = bit_or (remainder * 2 ^ 64) x in
    (u64 (current / divisor) ∷ quotient, current % divisor)

-- The source asserts that the divisor is not 0.
unfoldable pub divmod_u64 : BigUint → ℕ → Result RingError (BigUint × ℕ)
divmod_u64 x divisor =
    let (quotient, remainder) = divmod_limbs x.limbs divisor in
    if divisor == 0 then panic else ok (normalized quotient, u64 remainder)
