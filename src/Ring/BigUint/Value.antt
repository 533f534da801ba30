-- ===== src/Ring/BigUint/Value.antt =====
-- The number that a list of limbs stands for, and what each operation does to it.
use phantom_fhe.Base.{
  ℕ, ◌+◌, ◌*◌, ◌≡◌, refl, ap, ◌∙◌, List, [], ◌∷◌, u64_mod, IsU64, All, arith, ◌≢◌,
}
use phantom_fhe.Ring.BigUint.{BigUint, push_limb, pop_zeros, normalized}

abbrev pub limbs_value : List ℕ → ℕ
limbs_value [] = 0
limbs_value (x ∷ xs) = x + u64_mod * limbs_value xs

abbrev pub value : BigUint → ℕ
value x = limbs_value x.limbs

-- The top limb is not 0, so that no two forms stand for one number.
abbrev pub IsTrimmed : List ℕ → Type 0
IsTrimmed [] = Unit {0}
IsTrimmed (x ∷ []) = x ≢ 0
IsTrimmed (x ∷ y ∷ ys) = IsTrimmed (y ∷ ys)

pub record IsNormal (x : BigUint) : Type 0 where
  pub words : All IsU64 x.limbs
  pub trimmed : IsTrimmed x.limbs

push_limb-value :
    (x : ℕ) (xs : List ℕ) → limbs_value (push_limb x xs) ≡ x + u64_mod * limbs_value xs
unfolding push_limb
push_limb-value x [] = ground arith
push_limb-value x (y ∷ ys) = refl

push_limb-IsTrimmed : (x : ℕ) (xs : List ℕ) → IsTrimmed xs → IsTrimmed (push_limb x xs)
unfolding push_limb
push_limb-IsTrimmed x [] h = ground arith
push_limb-IsTrimmed x (y ∷ ys) h = h

push_limb-words : (x : ℕ) (xs : List ℕ) → IsU64 x → All IsU64 xs → All IsU64 (push_limb x xs)
unfolding push_limb
push_limb-words x [] h k = ground arith
push_limb-words x (y ∷ ys) h k = (h, k)

pub pop_zeros-value : (xs : List ℕ) → limbs_value (pop_zeros xs) ≡ limbs_value xs
unfolding pop_zeros
pop_zeros-value [] = refl
pop_zeros-value (x ∷ xs) =
    push_limb-value x (pop_zeros xs) ∙ ap (λ (t : ℕ). x + u64_mod * t) (pop_zeros-value xs)

pub pop_zeros-IsTrimmed : (xs : List ℕ) → IsTrimmed (pop_zeros xs)
unfolding pop_zeros
pop_zeros-IsTrimmed [] = tt
pop_zeros-IsTrimmed (x ∷ xs) = push_limb-IsTrimmed x (pop_zeros xs) (pop_zeros-IsTrimmed xs)

pop_zeros-words : (xs : List ℕ) → All IsU64 xs → All IsU64 (pop_zeros xs)
unfolding pop_zeros
pop_zeros-words [] h = tt
pop_zeros-words (x ∷ xs) h = push_limb-words x (pop_zeros xs) h.0 (pop_zeros-words xs h.1)

pub normalized-IsNormal : (xs : List ℕ) → All IsU64 xs → IsNormal (normalized xs)
unfolding normalized
normalized-IsNormal xs h = record { words = pop_zeros-words xs h; trimmed = pop_zeros-IsTrimmed xs }

pub normalized-value : (xs : List ℕ) → value (normalized xs) ≡ limbs_value xs
unfolding normalized
normalized-value xs = pop_zeros-value xs
