-- ===== src/Ring/Rns/Down.antt =====
-- Reading the components of whole polynomials, and the loops of `mod_down`.
use native.Mathlib.Nat
use phantom_fhe.Base.{
  ℕ, zero, suc, ◌+◌, ◌-◌, ◌%◌, ◌≤◌, ◌<◌, ◌≡◌, refl, sym, ap, ap₂, ◌∙◌, List, [], ◌∷◌, ok, All,
  length, drop, index_lem, collect-tabulate, tabulate, tabulate-length, get_or-tabulate, arith,
}
use phantom_fhe.Base.Residues.{mod_unique}
use phantom_fhe.Ring.Error.{RingError}
use phantom_fhe.Ring.Types.{Modulus}
use phantom_fhe.Ring.Poly.{Poly}
use phantom_fhe.Ring.Reduce.{sub_mod, mul_mod, inv_mod}
use phantom_fhe.Ring.BigUint.{BigUint}
use phantom_fhe.Ring.BigUint.Value.{value, IsNormal}
use phantom_fhe.Ring.BigUint.Division.{divmod_u64_lem}
use phantom_fhe.Ring.Rns.Cofactors.{modulus_at, residue_at}
use phantom_fhe.Ring.Rns.Value.{AreWords, HasEntries}
use phantom_fhe.Ring.Rns.Scaling.{table}
use phantom_fhe.Ring.Rns.Rescale.{coeff_at, mod_down_cell, mod_down_rows}

-- Rows of one length can be read wherever they are.
pub coeff_at_lem :
    (rows : List (List ℕ)) (n j i : ℕ)
    → All (λ row. length row ≡ n) rows
    → j < length rows
    → i < n
    → coeff_at rows j i ≡ ok (residue_at rows j i)
unfolding coeff_at
coeff_at_lem [] n j i h l k = absurd (omega arith)
coeff_at_lem (row ∷ rows) n zero i h l k = index_lem {E = RingError} row i 0 (omega (arith, h.0, k))
coeff_at_lem (row ∷ rows) n (suc j) i h l k = coeff_at_lem rows n j i h.1 (omega arith) k

pub table-residue_at :
    (f : ℕ → ℕ → ℕ) (ms : List Modulus) (n j i : ℕ)
    → j < length ms
    → i < n
    → residue_at (table (λ m. f m.value) ms n) j i ≡ f (modulus_at ms j) i
table-residue_at f [] n j i l k = absurd (omega arith)
table-residue_at f (m ∷ ms) n zero i l k =
    get_or-tabulate (f m.value) n 0 i 0 k ∙ ap (f m.value) (Nat.zero-add i)
table-residue_at f (m ∷ ms) n (suc j) i l k = table-residue_at f ms n j i (omega arith) k

-- One row for each modulus, its entries a function of the row's index too.
abbrev pub indexed : (ℕ → ℕ → ℕ → ℕ) → List Modulus → ℕ → ℕ → List (List ℕ)
indexed f [] n j = []
indexed f (m ∷ ms) n j = tabulate (f j m.value) n 0 ∷ indexed f ms n (j + 1)

pub indexed-residue_at :
    (f : ℕ → ℕ → ℕ → ℕ) (ms : List Modulus) (n j k i : ℕ)
    → k < length ms
    → i < n
    → residue_at (indexed f ms n j) k i ≡ f (j + k) (modulus_at ms k) i
indexed-residue_at f [] n j k i l h = absurd (omega arith)
indexed-residue_at f (m ∷ ms) n j zero i l h =
    get_or-tabulate (f j m.value) n 0 i 0 h
    ∙ ap₂ (λ (a b : ℕ). f a m.value b) (sym (Nat.add-zero j)) (Nat.zero-add i)
indexed-residue_at f (m ∷ ms) n j (suc k) i l h =
    indexed-residue_at f ms n (j + 1) k i (omega arith) h
    ∙ ap (λ (a : ℕ). f a (modulus_at ms k) i) (omega arith)

pub indexed-lengths :
    (f : ℕ → ℕ → ℕ → ℕ) (ms : List Modulus) (n j : ℕ)
    → All (λ row. length row ≡ n) (indexed f ms n j) × (length (indexed f ms n j) ≡ length ms)
indexed-lengths f [] n j = (tt, refl)
indexed-lengths f (m ∷ ms) n j =
    let (all, count) = indexed-lengths f ms n (j + 1) in
    ((tabulate-length (f j m.value) n 0, all), ap suc count)

-- What `mod_down` stores, from the components, those of the extension, and the product P.
abbrev pub down_entry : List (List ℕ) → List (List ℕ) → ℕ → ℕ → ℕ → ℕ → ℕ
down_entry rows p_rows big_p j q i =
    mul_mod (sub_mod (residue_at rows j i) (residue_at p_rows j i) q) (inv_mod (big_p % q) q) q

module _ (rows p_rows : List (List ℕ)) (big_p : BigUint) (normal : IsNormal big_p) (n total : ℕ)
    (readable : (j i : ℕ) → j < total → i < n → coeff_at rows j i ≡ ok (residue_at rows j i))
    (p_readable : (j i : ℕ)
      → j < total
      → i < n
      → coeff_at p_rows j i ≡ ok (residue_at p_rows j i)) where
  mod_down_cell_lem :
      (j q p_inv i : ℕ)
      → j < total
      → i < n
      → mod_down_cell rows p_rows q p_inv j i
        ≡ ok (mul_mod (sub_mod (residue_at rows j i) (residue_at p_rows j i) q) p_inv q)
  unfolding mod_down_cell
  mod_down_cell_lem j q p_inv i l h = rw (readable j i l h, p_readable j i l h) refl

  pub mod_down_rows_lem :
      (ms : List Modulus) (j : ℕ)
      → AreWords ms
      → j + length ms ≤ total
      → mod_down_rows rows p_rows big_p n ms j
        ≡ ok (indexed (down_entry rows p_rows (value big_p)) ms n j)
  unfolding mod_down_rows
  mod_down_rows_lem [] j w l = refl
  mod_down_rows_lem (m ∷ ms) j w l =
      let (q, r, divided, whole, below, _) = divmod_u64_lem m.value w.0.0 w.0.1 big_p normal in
      let same : r ≡ value big_p % m.value =
        sym (mod_unique (value q) r m.value below) ∙ ap (λ (x : ℕ). x % m.value) whole in
      let row =
        collect-tabulate (mod_down_cell rows p_rows m.value (inv_mod r m.value) j)
          (λ i.
            mul_mod (sub_mod (residue_at rows j i) (residue_at p_rows j i) m.value)
              (inv_mod r m.value) m.value)
          n 0
          (λ i h. mod_down_cell_lem j m.value (inv_mod r m.value) i (omega arith) (omega arith)) in
      rw (divided, row, mod_down_rows_lem ms (j + 1) w.1 (omega arith), same) refl

-- A component of the degree's length for each modulus, and no more.
pub record IsWhole (poly : Poly) (count : ℕ) : Type 0 where
  pub counted : length poly.coeffs ≡ count
  pub positive : 0 < poly.degree
  pub rows : All (λ row. length row ≡ poly.degree) poly.coeffs

pub All-drop : (P : List ℕ → Type 0) (n : ℕ) (xs : List (List ℕ)) → All P xs → All P (drop n xs)
All-drop P zero xs h = h
All-drop P (suc n) [] h = tt
All-drop P (suc n) (x ∷ xs) h = All-drop P n xs h.1

pub length-drop : (n : ℕ) (xs : List (List ℕ)) → length (drop n xs) ≡ length xs - n
length-drop zero xs = omega arith
length-drop (suc n) [] = omega arith
length-drop (suc n) (x ∷ xs) = omega (arith, length-drop n xs)

pub rows-HasEntries :
    (rows : List (List ℕ)) (ms : List Modulus) (n i : ℕ)
    → length rows ≡ length ms
    → All (λ row. length row ≡ n) rows
    → i < n
    → HasEntries i rows ms
rows-HasEntries [] [] n i e h l = tt
rows-HasEntries [] (m ∷ ms) n i e h l = absurd (omega arith)
rows-HasEntries (row ∷ rows) [] n i e h l = absurd (omega arith)
rows-HasEntries (row ∷ rows) (m ∷ ms) n i e h l =
    (omega (arith, h.0, l), rows-HasEntries rows ms n i (omega arith) h.1 l)
