-- ===== src/Ring/Context/RowLaws.antt =====
-- Laws of residues, lifted to components and to lists of components.
use phantom_fhe.Base.{
  ℕ, zero, suc, ◌<◌, ◌≡◌, refl, ap₂, List, [], ◌∷◌, map, arith, length, All, replicate,
}
use phantom_fhe.Ring.Types.{Modulus}
use phantom_fhe.Ring.Context.Rows.{IsModulus, IsRow, AreRows, zipped, zipped_rows, mapped_rows}

module _ (f : ℕ → ℕ → ℕ → ℕ) (n : ℕ) where
  module _
      (comm : (m : Modulus) (a b : ℕ)
        → IsModulus m
        → a < m.value
        → b < m.value
        → f a b m.value ≡ f b a m.value) where
    zipped_comm :
        (m : Modulus) (k : ℕ) (xs ys : List ℕ)
        → IsModulus m
        → IsRow k m.value xs
        → IsRow k m.value ys
        → zipped (λ a b. f a b m.value) xs ys ≡ zipped (λ a b. f a b m.value) ys xs
    zipped_comm m k [] [] v h l = refl
    zipped_comm m k [] (y ∷ ys) v h l = absurd (omega arith)
    zipped_comm m k (x ∷ xs) [] v h l = absurd (omega arith)
    zipped_comm m zero (x ∷ xs) (y ∷ ys) v h l = absurd (omega arith)
    zipped_comm m (suc k) (x ∷ xs) (y ∷ ys) v h l =
        ap₂ ◌∷◌ (comm m x y v h.1.0 l.1.0)
          (zipped_comm m k xs ys v (omega arith, h.1.1) (omega arith, l.1.1))

    pub zipped_rows_comm :
        (ms : List Modulus) (xs ys : List (List ℕ))
        → All IsModulus ms
        → AreRows n ms xs
        → AreRows n ms ys
        → zipped_rows f ms xs ys ≡ zipped_rows f ms ys xs
    zipped_rows_comm [] [] [] v h k = refl
    zipped_rows_comm [] [] (y ∷ ys) v h k = absurd k
    zipped_rows_comm [] (x ∷ xs) ys v h k = absurd h
    zipped_rows_comm (m ∷ ms) [] ys v h k = absurd h
    zipped_rows_comm (m ∷ ms) (x ∷ xs) [] v h k = absurd k
    zipped_rows_comm (m ∷ ms) (x ∷ xs) (y ∷ ys) v h k =
        ap₂ ◌∷◌ (zipped_comm m n x y v.0 h.0 k.0) (zipped_rows_comm ms xs ys v.1 h.1 k.1)

  module _
      (assoc : (m : Modulus) (a b c : ℕ)
        → IsModulus m
        → a < m.value
        → b < m.value
        → c < m.value
        → f (f a b m.value) c m.value ≡ f a (f b c m.value) m.value) where
    zipped_assoc :
        (m : Modulus) (k : ℕ) (xs ys zs : List ℕ)
        → IsModulus m
        → IsRow k m.value xs
        → IsRow k m.value ys
        → IsRow k m.value zs
        → let g = λ (a b : ℕ). f a b m.value in
          zipped g (zipped g xs ys) zs ≡ zipped g xs (zipped g ys zs)
    zipped_assoc m k [] ys zs v h l o = refl
    zipped_assoc m k (x ∷ xs) [] zs v h l o = absurd (omega arith)
    zipped_assoc m k (x ∷ xs) (y ∷ ys) [] v h l o = absurd (omega arith)
    zipped_assoc m zero (x ∷ xs) (y ∷ ys) (z ∷ zs) v h l o = absurd (omega arith)
    zipped_assoc m (suc k) (x ∷ xs) (y ∷ ys) (z ∷ zs) v h l o =
        ap₂ ◌∷◌ (assoc m x y z v h.1.0 l.1.0 o.1.0) (
          zipped_assoc m k xs ys zs v (omega arith, h.1.1) (omega arith, l.1.1)
            (omega arith, o.1.1))

    pub zipped_rows_assoc :
        (ms : List Modulus) (xs ys zs : List (List ℕ))
        → All IsModulus ms
        → AreRows n ms xs
        → AreRows n ms ys
        → AreRows n ms zs
        → zipped_rows f ms (zipped_rows f ms xs ys) zs
          ≡ zipped_rows f ms xs (zipped_rows f ms ys zs)
    zipped_rows_assoc [] xs ys zs v h k l = refl
    zipped_rows_assoc (m ∷ ms) [] ys zs v h k l = refl
    zipped_rows_assoc (m ∷ ms) (x ∷ xs) [] zs v h k l = absurd k
    zipped_rows_assoc (m ∷ ms) (x ∷ xs) (y ∷ ys) [] v h k l = absurd l
    zipped_rows_assoc (m ∷ ms) (x ∷ xs) (y ∷ ys) (z ∷ zs) v h k l =
        ap₂ ◌∷◌ (zipped_assoc m n x y z v.0 h.0 k.0 l.0)
          (zipped_rows_assoc ms xs ys zs v.1 h.1 k.1 l.1)

  module _ (h' : ℕ → ℕ → ℕ)
      (cancel : (m : Modulus) (a : ℕ)
        → IsModulus m
        → a < m.value
        → f a (h' a m.value) m.value ≡ 0) where
    zipped_cancel :
        (m : Modulus) (k : ℕ) (xs : List ℕ)
        → IsModulus m
        → IsRow k m.value xs
        → zipped (λ a b. f a b m.value) xs (map (λ a. h' a m.value) xs) ≡ replicate k 0
    zipped_cancel m zero [] v h = refl
    zipped_cancel m (suc k) [] v h = absurd (omega arith)
    zipped_cancel m zero (x ∷ xs) v h = absurd (omega arith)
    zipped_cancel m (suc k) (x ∷ xs) v h =
        ap₂ ◌∷◌ (cancel m x v h.1.0) (zipped_cancel m k xs v (omega arith, h.1.1))

    pub zipped_rows_cancel :
        (ms : List Modulus) (xs : List (List ℕ))
        → All IsModulus ms
        → AreRows n ms xs
        → zipped_rows f ms xs (mapped_rows h' ms xs) ≡ replicate (length ms) (replicate n 0)
    zipped_rows_cancel [] [] v h = refl
    zipped_rows_cancel [] (x ∷ xs) v h = absurd h
    zipped_rows_cancel (m ∷ ms) [] v h = absurd h
    zipped_rows_cancel (m ∷ ms) (x ∷ xs) v h =
        ap₂ ◌∷◌ (zipped_cancel m n x v.0 h.0) (zipped_rows_cancel ms xs v.1 h.1)

  module _ (g : ℕ → ℕ → ℕ → ℕ)
      (undo : (m : Modulus) (a b : ℕ)
        → IsModulus m
        → a < m.value
        → b < m.value
        → g (f a b m.value) b m.value ≡ a) where
    zipped_undo :
        (m : Modulus) (k : ℕ) (xs ys : List ℕ)
        → IsModulus m
        → IsRow k m.value xs
        → IsRow k m.value ys
        → zipped (λ a b. g a b m.value) (zipped (λ a b. f a b m.value) xs ys) ys ≡ xs
    zipped_undo m k [] ys v h l = refl
    zipped_undo m k (x ∷ xs) [] v h l = absurd (omega arith)
    zipped_undo m zero (x ∷ xs) (y ∷ ys) v h l = absurd (omega arith)
    zipped_undo m (suc k) (x ∷ xs) (y ∷ ys) v h l =
        ap₂ ◌∷◌ (undo m x y v h.1.0 l.1.0)
          (zipped_undo m k xs ys v (omega arith, h.1.1) (omega arith, l.1.1))

    pub zipped_rows_undo :
        (ms : List Modulus) (xs ys : List (List ℕ))
        → All IsModulus ms
        → AreRows n ms xs
        → AreRows n ms ys
        → zipped_rows g ms (zipped_rows f ms xs ys) ys ≡ xs
    zipped_rows_undo [] xs ys v h k = refl
    zipped_rows_undo (m ∷ ms) [] ys v h k = refl
    zipped_rows_undo (m ∷ ms) (x ∷ xs) [] v h k = absurd k
    zipped_rows_undo (m ∷ ms) (x ∷ xs) (y ∷ ys) v h k =
        ap₂ ◌∷◌ (zipped_undo m n x y v.0 h.0 k.0) (zipped_rows_undo ms xs ys v.1 h.1 k.1)
