-- ===== src/Base/Bytes.antt =====
-- Bytes as numbers below 256, and `to_le_bytes` and `from_le_bytes` at a width.
use native.Mathlib.Nat
use phantom_fhe.Base.{
  ℕ, zero, suc, ◌+◌, ◌-◌, ◌*◌, ◌/◌, ◌%◌, ◌^◌, ◌<◌, ◌≡◌, refl, ap, ap₂, List, [], ◌∷◌, Bool, true,
  false, ◌==◌, ◌&&◌, ◌||◌, length, All, take, drop, arith, ==_iff, Bool-cases, inl, inr, ==_refl,
  Option, some, none, ltb, if◌then◌else◌,
}

abbrev pub IsByte : ℕ → Type 0
IsByte b = b < 256

-- `value.to_le_bytes()` at `n` bytes.
abbrev pub to_le_bytes : ℕ → ℕ → List ℕ
to_le_bytes zero x = []
to_le_bytes (suc n) x = x % 256 ∷ to_le_bytes n (x / 256)

abbrev pub from_le_bytes : List ℕ → ℕ
from_le_bytes [] = 0
from_le_bytes (b ∷ bs) = b + 256 * from_le_bytes bs

-- `==` on byte strings.
abbrev pub bytes_eq : List ℕ → List ℕ → Bool
bytes_eq [] [] = true
bytes_eq [] (y ∷ ys) = false
bytes_eq (x ∷ xs) [] = false
bytes_eq (x ∷ xs) (y ∷ ys) = x == y && bytes_eq xs ys

-- `bytes.get(start..end)`
abbrev pub get_range : List ℕ → ℕ → ℕ → Option (List ℕ)
get_range xs start stop =
    if ltb stop start || ltb (length xs) stop
    then none
    else some (take (stop - start) (drop start xs))

pub length-to_le_bytes : (n x : ℕ) → length (to_le_bytes n x) ≡ n
length-to_le_bytes zero x = refl
length-to_le_bytes (suc n) x = ap suc (length-to_le_bytes n (x / 256))

pub to_le_bytes-bytes : (n x : ℕ) → All IsByte (to_le_bytes n x)
to_le_bytes-bytes zero x = tt
to_le_bytes-bytes (suc n) x = (omega arith, to_le_bytes-bytes n (x / 256))

pub from_le_bytes-to_le_bytes : (n x : ℕ) → x < 256 ^ n → from_le_bytes (to_le_bytes n x) ≡ x
from_le_bytes-to_le_bytes zero x h = omega (arith, Nat.pow-zero 256)
from_le_bytes-to_le_bytes (suc n) x h = omega (
  arith,
  Nat.pow-suc 256 n,
  from_le_bytes-to_le_bytes n (x / 256) (omega (arith, h, Nat.pow-suc 256 n)),
)

pub to_le_bytes-from_le_bytes :
    (bs : List ℕ) → All IsByte bs → to_le_bytes (length bs) (from_le_bytes bs) ≡ bs
to_le_bytes-from_le_bytes [] h = refl
to_le_bytes-from_le_bytes (b ∷ bs) h =
    let low : (b + 256 * from_le_bytes bs) % 256 ≡ b = omega (arith, h.0) in
    let high : (b + 256 * from_le_bytes bs) / 256 ≡ from_le_bytes bs = omega (arith, h.0) in
    rw (low, high) (ap (◌∷◌ b) (to_le_bytes-from_le_bytes bs h.1))

pub from_le_bytes-lt : (bs : List ℕ) → All IsByte bs → from_le_bytes bs < 256 ^ length bs
from_le_bytes-lt [] h = omega (arith, Nat.pow-zero 256)
from_le_bytes-lt (b ∷ bs) h =
    omega (arith, h.0, Nat.pow-suc 256 (length bs), from_le_bytes-lt bs h.1)

pub bytes_eq_refl : (xs : List ℕ) → bytes_eq xs xs ≡ true
bytes_eq_refl [] = refl
bytes_eq_refl (x ∷ xs) = rw (==_refl x, bytes_eq_refl xs)

pub bytes_eq→≡ : (xs ys : List ℕ) → bytes_eq xs ys ≡ true → xs ≡ ys
bytes_eq→≡ [] [] h = refl
bytes_eq→≡ [] (y ∷ ys) h = absurd (ground arith)
bytes_eq→≡ (x ∷ xs) [] h = absurd (ground arith)
bytes_eq→≡ (x ∷ xs) (y ∷ ys) h = elim (Bool-cases (x == y)) [
  | inl e ↦ ap₂ ◌∷◌ ((==_iff x y).0 e) (bytes_eq→≡ xs ys (ground (arith, h, e)))
  | inr e ↦ absurd (ground (arith, h, e))
]
