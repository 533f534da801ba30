-- ===== src/Ring/Rns/Cofactors.antt =====
-- The product of all moduli but one is a multiple of each of the others.
use native.Mathlib.Nat
use phantom_fhe.Base.{
  ℕ, zero, suc, ◌+◌, ◌*◌, ◌/◌, ◌%◌, ◌<◌, ◌≡◌, ◌≢◌, refl, sym, ap, ◌∙◌, List, [], ◌∷◌, length,
  get_or, arith,
}
use phantom_fhe.Base.Residues.{mul-mod-mod}
use phantom_fhe.Ring.Types.{Modulus}
use phantom_fhe.Ring.Rns.Constants.{modulus_product}
use phantom_fhe.Ring.Rns.Value.{crt_sum}

abbrev pub modulus_at : List Modulus → ℕ → ℕ
modulus_at [] j = 0
modulus_at (m ∷ ms) zero = m.value
modulus_at (m ∷ ms) (suc j) = modulus_at ms j

-- Component `j`'s entry `i`.
abbrev pub residue_at : List (List ℕ) → ℕ → ℕ → ℕ
residue_at [] j i = 0
residue_at (row ∷ rows) zero i = get_or row i 0
residue_at (row ∷ rows) (suc j) i = residue_at rows j i

-- The product of all moduli but one.
unfoldable pub others : List Modulus → ℕ → ℕ
others [] j = 1
others (m ∷ ms) zero = modulus_product ms
others (m ∷ ms) (suc j) = m.value * others ms j

pub product-others :
    (ms : List Modulus) (j : ℕ) → j < length ms → modulus_product ms ≡ modulus_at ms j * others ms j
unfolding others
product-others [] j l = absurd (omega arith)
product-others (m ∷ ms) zero l = refl
product-others (m ∷ ms) (suc j) l = grind (arith, product-others ms j (omega arith))

pub zero-product : (a b m : ℕ) → b % m ≡ 0 → a * b % m ≡ 0
zero-product a b m h =
    sym (mul-mod-mod a b m)
    ∙ ap (λ (t : ℕ). a * t % m) h
    ∙ ap (λ (t : ℕ). t % m) (Nat.mul-zero a)
    ∙ Nat.zero-mod m

own-multiple : (m a : ℕ) → m * a % m ≡ 0
own-multiple m a = Nat.mul-mod_right m a

pub others-vanish :
    (ms : List Modulus) (k j : ℕ)
    → k < length ms
    → j < length ms
    → k ≢ j
    → others ms k % modulus_at ms j ≡ 0
unfolding others
others-vanish [] k j l h ne = absurd (omega arith)
others-vanish (m ∷ ms) zero zero l h ne = absurd (ne refl)
others-vanish (m ∷ ms) zero (suc j) l h ne =
    ap (λ (t : ℕ). t % modulus_at ms j) (product-others ms j (omega arith))
    ∙ own-multiple (modulus_at ms j) (others ms j)
others-vanish (m ∷ ms) (suc k) zero l h ne = own-multiple m.value (others ms k)
others-vanish (m ∷ ms) (suc k) (suc j) l h ne =
    zero-product m.value (others ms k) (modulus_at ms j)
      (others-vanish ms k j (omega arith) (omega arith) (λ e. ne (ap suc e)))

-- Terms whose cofactors vanish add nothing.
pub sum-vanish :
    (rows : List (List ℕ)) (ms : List Modulus) (big_q i m : ℕ)
    → ((k : ℕ) → k < length ms → big_q / modulus_at ms k % m ≡ 0)
    → crt_sum rows ms big_q i % m ≡ 0
sum-vanish [] ms big_q i m f = Nat.zero-mod m
sum-vanish (row ∷ rows) [] big_q i m f = Nat.zero-mod m
sum-vanish (row ∷ rows) (n ∷ ms) big_q i m f =
    sum-zero _ _ m (zero-product _ (big_q / n.value) m (f 0 (omega arith)))
      (sum-vanish rows ms big_q i m (λ k l. f (suc k) (omega arith)))
  where
    sum-zero : (a b q : ℕ) → a % q ≡ 0 → b % q ≡ 0 → (a + b) % q ≡ 0
    sum-zero a b q g h =
        sym (Nat.add-mod-mod a b q)
        ∙ ap (λ (t : ℕ). (a + t) % q) h
        ∙ ap (λ (t : ℕ). t % q) (Nat.add-zero a)
        ∙ g
