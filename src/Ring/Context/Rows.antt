-- ===== src/Ring/Context/Rows.antt =====
-- Well-formed components, and the loops over them as maps without failure.
use phantom_fhe.Base.{
  ℕ, zero, suc, ◌<◌, ◌≡◌, refl, ap, List, [], ◌∷◌, map, ok, arith, IsU64, length, All, length-map,
}
use phantom_fhe.Ring.Types.{Modulus}
use phantom_fhe.Ring.Context.{zip_row, zip_rows, map_rows}

abbrev pub IsModulus : Modulus → Type 0
IsModulus m = (1 < m.value) × IsU64 m.value

abbrev pub IsResidue : ℕ → ℕ → Type 0
IsResidue q c = c < q

-- A component: as many coefficients as the degree, each a residue.
abbrev pub IsRow : ℕ → ℕ → List ℕ → Type 0
IsRow n q row = (length row ≡ n) × All (IsResidue q) row

-- One component for each modulus.
abbrev pub AreRows : ℕ → List Modulus → List (List ℕ) → Type 0
AreRows n [] [] = Unit {0}
AreRows n [] (x ∷ xs) = ⊥
AreRows n (m ∷ ms) [] = ⊥
AreRows n (m ∷ ms) (x ∷ xs) = IsRow n m.value x × AreRows n ms xs

pub AreRows-length :
    (n : ℕ) (ms : List Modulus) (xs : List (List ℕ)) → AreRows n ms xs → length xs ≡ length ms
AreRows-length n [] [] h = refl
AreRows-length n [] (x ∷ xs) h = absurd h
AreRows-length n (m ∷ ms) [] h = absurd h
AreRows-length n (m ∷ ms) (x ∷ xs) h = ap suc (AreRows-length n ms xs h.1)

abbrev pub zipped : (ℕ → ℕ → ℕ) → List ℕ → List ℕ → List ℕ
zipped f [] ys = []
zipped f (x ∷ xs) [] = x ∷ xs
zipped f (x ∷ xs) (y ∷ ys) = f x y ∷ zipped f xs ys

abbrev pub zipped_rows :
    (ℕ → ℕ → ℕ → ℕ) → List Modulus → List (List ℕ) → List (List ℕ) → List (List ℕ)
zipped_rows f [] xs ys = xs
zipped_rows f (m ∷ ms) [] ys = []
zipped_rows f (m ∷ ms) (x ∷ xs) [] = x ∷ xs
zipped_rows f (m ∷ ms) (x ∷ xs) (y ∷ ys) =
    zipped (λ a b. f a b m.value) x y ∷ zipped_rows f ms xs ys

abbrev pub mapped_rows : (ℕ → ℕ → ℕ) → List Modulus → List (List ℕ) → List (List ℕ)
mapped_rows f [] xs = xs
mapped_rows f (m ∷ ms) [] = []
mapped_rows f (m ∷ ms) (x ∷ xs) = map (λ a. f a m.value) x ∷ mapped_rows f ms xs

zip_row_lem :
    (f : ℕ → ℕ → ℕ) (n : ℕ) (xs ys : List ℕ)
    → length xs ≡ n
    → length ys ≡ n
    → zip_row f n xs ys ≡ ok (zipped f xs ys)
unfolding zip_row
zip_row_lem f zero [] ys h k = refl
zip_row_lem f zero (x ∷ xs) ys h k = absurd (omega arith)
zip_row_lem f (suc n) [] ys h k = absurd (omega arith)
zip_row_lem f (suc n) (x ∷ xs) [] h k = absurd (omega arith)
zip_row_lem f (suc n) (x ∷ xs) (y ∷ ys) h k = rw (zip_row_lem f n xs ys (omega arith) (omega arith))

module _ (f : ℕ → ℕ → ℕ → ℕ) (n : ℕ) where
  pub zip_rows_lem :
      (ms : List Modulus) (xs ys : List (List ℕ))
      → AreRows n ms xs
      → AreRows n ms ys
      → zip_rows f n ms xs ys ≡ ok (zipped_rows f ms xs ys)
  unfolding zip_rows
  zip_rows_lem [] xs ys h k = refl
  zip_rows_lem (m ∷ ms) [] ys h k = absurd h
  zip_rows_lem (m ∷ ms) (x ∷ xs) [] h k = absurd k
  zip_rows_lem (m ∷ ms) (x ∷ xs) (y ∷ ys) h k =
      rw (zip_row_lem (λ a b. f a b m.value) n x y h.0.0 k.0.0, zip_rows_lem ms xs ys h.1 k.1)

  module _
      (closed : (m : Modulus) (a b : ℕ)
        → IsModulus m
        → a < m.value
        → b < m.value
        → f a b m.value < m.value) where
    zipped-IsRow :
        (m : Modulus) (k : ℕ) (xs ys : List ℕ)
        → IsModulus m
        → IsRow k m.value xs
        → IsRow k m.value ys
        → IsRow k m.value (zipped (λ a b. f a b m.value) xs ys)
    zipped-IsRow m k [] ys v h l = h
    zipped-IsRow m k (x ∷ xs) [] v h l = h
    zipped-IsRow m zero (x ∷ xs) (y ∷ ys) v h l = absurd (omega arith)
    zipped-IsRow m (suc k) (x ∷ xs) (y ∷ ys) v h l =
        let rest = zipped-IsRow m k xs ys v (omega arith, h.1.1) (omega arith, l.1.1) in
        (ap suc rest.0, (closed m x y v h.1.0 l.1.0, rest.1))

    pub zipped_rows-AreRows :
        (ms : List Modulus) (xs ys : List (List ℕ))
        → All IsModulus ms
        → AreRows n ms xs
        → AreRows n ms ys
        → AreRows n ms (zipped_rows f ms xs ys)
    zipped_rows-AreRows [] xs ys v h k = h
    zipped_rows-AreRows (m ∷ ms) [] ys v h k = absurd h
    zipped_rows-AreRows (m ∷ ms) (x ∷ xs) [] v h k = absurd k
    zipped_rows-AreRows (m ∷ ms) (x ∷ xs) (y ∷ ys) v h k =
        (zipped-IsRow m n x y v.0 h.0 k.0, zipped_rows-AreRows ms xs ys v.1 h.1 k.1)

module _ (f : ℕ → ℕ → ℕ) (n : ℕ) where
  pub map_rows_lem :
      (ms : List Modulus) (xs : List (List ℕ))
      → AreRows n ms xs
      → map_rows f ms xs ≡ ok (mapped_rows f ms xs)
  unfolding map_rows
  map_rows_lem [] xs h = refl
  map_rows_lem (m ∷ ms) [] h = absurd h
  map_rows_lem (m ∷ ms) (x ∷ xs) h = rw (map_rows_lem ms xs h.1)

  module _
      (closed : (m : Modulus) (a : ℕ) → IsModulus m → a < m.value → f a m.value < m.value) where
    map-residues :
        (m : Modulus) (xs : List ℕ)
        → IsModulus m
        → All (IsResidue m.value) xs
        → All (IsResidue m.value) (map (λ a. f a m.value) xs)
    map-residues m [] v h = tt
    map-residues m (x ∷ xs) v h = (closed m x v h.0, map-residues m xs v h.1)

    pub mapped_rows-AreRows :
        (ms : List Modulus) (xs : List (List ℕ))
        → All IsModulus ms
        → AreRows n ms xs
        → AreRows n ms (mapped_rows f ms xs)
    mapped_rows-AreRows [] xs v h = h
    mapped_rows-AreRows (m ∷ ms) [] v h = absurd h
    mapped_rows-AreRows (m ∷ ms) (x ∷ xs) v h = (
      (rw (length-map x (λ a. f a m.value)) h.0.0, map-residues m x v.0 h.0.1),
      mapped_rows-AreRows ms xs v.1 h.1,
    )
