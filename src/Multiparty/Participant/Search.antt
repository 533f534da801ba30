-- ===== src/Multiparty/Participant/Search.antt =====
-- Binary search of an ascending list finds exactly what is on it.
use phantom_fhe.Base.{
  ℕ, zero, suc, ◌+◌, ◌/◌, ◌≤◌, ◌<◌, ◌≡◌, refl, sym, List, [], ◌∷◌, Bool, true, false, ◌||◌, ◌==◌,
  length, get_or, All, arith, Bool-cases, inl, inr, ==_refl, ==_iff,
}
use phantom_fhe.Multiparty.Participant.{elem, binary_search}

-- Every entry is below all that follow it.
abbrev pub IsAscending : List ℕ → Type 0
IsAscending [] = Unit
IsAscending (x ∷ xs) = All (λ y. x < y) xs × IsAscending xs

pub All-get_or :
    (P : ℕ → Type 0) (xs : List ℕ) (i d : ℕ) → All P xs → i < length xs → P (get_or xs i d)
All-get_or P [] i d h l = absurd (omega arith)
All-get_or P (x ∷ xs) zero d h l = h.0
All-get_or P (x ∷ xs) (suc i) d h l = All-get_or P xs i d h.1 (omega arith)

ascending-get :
    (xs : List ℕ) (i j : ℕ) → IsAscending xs → i < j → j < length xs → get_or xs i 0 < get_or xs j 0
ascending-get [] i j h l k = absurd (omega arith)
ascending-get (x ∷ xs) i zero h l k = absurd (omega arith)
ascending-get (x ∷ xs) zero (suc j) h l k = All-get_or (λ y. x < y) xs j 0 h.0 (omega arith)
ascending-get (x ∷ xs) (suc i) (suc j) h l k = ascending-get xs i j h.1 (omega arith) (omega arith)

elem-get_or : (xs : List ℕ) (i : ℕ) → i < length xs → elem (get_or xs i 0) xs ≡ true
unfolding elem
elem-get_or [] i l = absurd (omega arith)
elem-get_or (x ∷ xs) zero l = rw (==_refl x)
elem-get_or (x ∷ xs) (suc i) l = rw (elem-get_or xs i (omega arith)) (or-true (get_or xs i 0 == x))
  where
    or-true : (b : Bool) → (b || true) ≡ true
    or-true true = refl
    or-true false = refl

pub elem-place :
    (x : ℕ) (xs : List ℕ) → elem x xs ≡ true → (i : ℕ) × (i < length xs) × (get_or xs i 0 ≡ x)
unfolding elem
elem-place x [] h = absurd (ground arith)
elem-place x (y ∷ ys) h = elim (Bool-cases (x == y)) [
  | inl e ↦ (0, omega arith, sym ((==_iff x y).0 e))
  | inr e ↦ let (i, l, at) = elem-place x ys (ground (arith, h, e)) in (suc i, omega arith, at)
]

-- What the search finds stands on the list.
pub search_sound :
    (fuel : ℕ) (xs : List ℕ) (x lo hi : ℕ)
    → hi ≤ length xs
    → binary_search fuel xs x lo hi ≡ true
    → elem x xs ≡ true
unfolding binary_search
search_sound zero xs x lo hi l h = absurd (ground arith)
search_sound (suc fuel) xs x lo hi l h = ground (
  arith,
  h,
  l,
  elem-get_or xs ((lo + hi) / 2),
  search_sound fuel xs x lo ((lo + hi) / 2),
  search_sound fuel xs x (suc ((lo + hi) / 2)) hi,
)

-- What stands in the range is found.
pub search_complete :
    (fuel : ℕ) (xs : List ℕ) (i lo hi : ℕ)
    → IsAscending xs
    → lo ≤ i
    → i < hi
    → hi ≤ length xs
    → hi ≤ lo + fuel
    → binary_search fuel xs (get_or xs i 0) lo hi ≡ true
unfolding binary_search
search_complete zero xs i lo hi up a b l f = absurd (omega arith)
search_complete (suc fuel) xs i lo hi up a b l f = ground (
  arith,
  a,
  b,
  l,
  f,
  ascending-get xs i ((lo + hi) / 2) up,
  ascending-get xs ((lo + hi) / 2) i up,
  search_complete fuel xs i lo ((lo + hi) / 2) up,
  search_complete fuel xs i (suc ((lo + hi) / 2)) hi up,
)
