-- ===== src/Ring/BigUint/Compare.antt =====
-- Comparison of normal forms is comparison of values, so that a value has one normal form.
use native.Mathlib.Nat
use phantom_fhe.Base.{
  ℕ, ◌+◌, ◌*◌, ◌^◌, ◌≤◌, ◌<◌, ◌≡◌, refl, List, [], ◌∷◌, u64_mod, IsU64, length, All, arith, compare,
}
use phantom_fhe.Ring.BigUint.{BigUint, cmp_limbs, cmp, then_with}
use phantom_fhe.Ring.BigUint.Value.{limbs_value, value, IsNormal, IsTrimmed}

pub limbs_value-lt : (xs : List ℕ) → All IsU64 xs → limbs_value xs < u64_mod ^ length xs
limbs_value-lt [] h = rw Nat.pow-zero (omega arith)
limbs_value-lt (x ∷ xs) h =
    rw (Nat.pow-succ' u64_mod (length xs)) (omega (arith, limbs_value-lt xs h.1))

-- A trimmed list of limbs uses them all.
pub pow-le-limbs_value :
    (x : ℕ) (xs : List ℕ) → IsTrimmed (x ∷ xs) → u64_mod ^ length xs ≤ limbs_value (x ∷ xs)
pow-le-limbs_value x [] t = rw Nat.pow-zero (omega arith)
pow-le-limbs_value x (y ∷ ys) t =
    rw (Nat.pow-succ' u64_mod (length ys)) (omega (arith, pow-le-limbs_value y ys t))

compare-digits :
    (x y a b : ℕ)
    → IsU64 x
    → IsU64 y
    → then_with (compare a b) (compare x y) ≡ compare (x + u64_mod * a) (y + u64_mod * b)
unfolding then_with
compare-digits x y a b h k = ground arith

-- The order of two lists of one length is that of their values.
cmp_limbs_lem :
    (xs ys : List ℕ)
    → length xs ≡ length ys
    → All IsU64 xs
    → All IsU64 ys
    → cmp_limbs xs ys ≡ compare (limbs_value xs) (limbs_value ys)
unfolding cmp_limbs
cmp_limbs_lem [] [] e h k = refl
cmp_limbs_lem [] (y ∷ ys) e h k = absurd (omega arith)
cmp_limbs_lem (x ∷ xs) [] e h k = absurd (omega arith)
cmp_limbs_lem (x ∷ xs) (y ∷ ys) e h k =
    rw (cmp_limbs_lem xs ys (omega arith) h.1 k.1) (compare-digits x y _ _ h.0 k.0)

-- Fewer limbs in normal form, smaller value.
shorter-lt :
    (xs ys : List ℕ)
    → All IsU64 xs
    → IsTrimmed ys
    → length xs < length ys
    → limbs_value xs < limbs_value ys
shorter-lt xs [] h t lt = absurd (omega arith)
shorter-lt xs (y ∷ ys) h t lt = omega (
  arith,
  limbs_value-lt xs h,
  pow-le-limbs_value y ys t,
  Nat.pow-le-pow_right {n = u64_mod} (omega arith) {i = length xs} {j = length ys} (omega arith),
)

-- `cmp` on normal forms orders them as numbers.
pub cmp_lem : (x y : BigUint) → IsNormal x → IsNormal y → cmp x y ≡ compare (value x) (value y)
unfolding cmp then_with
cmp_lem x y h k = ground (
  arith,
  shorter-lt x.limbs y.limbs h.words k.trimmed,
  shorter-lt y.limbs x.limbs k.words h.trimmed,
  λ (e : length x.limbs ≡ length y.limbs). cmp_limbs_lem x.limbs y.limbs e h.words k.words,
)
