-- ===== src/Ring/Rns/Residues.antt =====
-- The Chinese remainder theorem: the reconstructed value has the residues it was made of.
use native.Mathlib.Nat
use phantom_fhe.Base.{
  ℕ, zero, suc, ◌+◌, ◌-◌, ◌*◌, ◌/◌, ◌%◌, ◌^◌, ◌<◌, ◌≡◌, ◌≢◌, refl, sym, ap, subst, ◌∙◌, List, [],
  ◌∷◌, ok, length, get_or, IsU64, arith,
}
use phantom_fhe.Base.Residues.{mod-eq_small, mul-mod-mod, mod-mul-mod}
use phantom_fhe.Ring.Types.{Modulus}
use phantom_fhe.Ring.Reduce.{mul_mod, inv_mod}
use phantom_fhe.Ring.Reduce.Range.{mul_mod_lem}
use phantom_fhe.Ring.Reduce.Power.{mul_mod-inv_mod}
use phantom_fhe.Ring.BigUint.{BigUint}
use phantom_fhe.Ring.BigUint.Value.{value}
use phantom_fhe.Ring.Rns.{basis_product, crt_constants, true_value}
use phantom_fhe.Ring.Rns.Constants.{modulus_product}
use phantom_fhe.Ring.Rns.Value.{crt_sum, HasEntries, AreWords, true_value_lem, modulus_product-pos}
use phantom_fhe.Ring.Rns.Cofactors.{
  modulus_at, residue_at, others, product-others, zero-product, others-vanish, sum-vanish,
}

-- The terms of the other components vanish modulo the one modulus.
sum-one :
    (rows : List (List ℕ)) (ms : List Modulus) (big_q i j m : ℕ)
    → HasEntries i rows ms
    → j < length ms
    → modulus_at ms j ≡ m
    → ((k : ℕ) → k < length ms → k ≢ j → big_q / modulus_at ms k % m ≡ 0)
    → crt_sum rows ms big_q i % m
      ≡ mul_mod (residue_at rows j i) (inv_mod (big_q / m % m) m) m * (big_q / m) % m
sum-one [] [] big_q i j m h l e f = absurd (omega arith)
sum-one [] (n ∷ ms) big_q i j m h l e f = absurd h
sum-one (row ∷ rows) [] big_q i j m h l e f = absurd h
sum-one (row ∷ rows) (n ∷ ms) big_q i zero m h l e f =
    sym (Nat.add-mod-mod _ (crt_sum rows ms big_q i) m)
    ∙ ap (λ (t : ℕ). (first n.value + t) % m)
        (sum-vanish rows ms big_q i m (λ k b. f (suc k) (omega arith) (λ z. absurd (omega arith))))
    ∙ ap (λ (t : ℕ). t % m) (Nat.add-zero (first n.value))
    ∙ ap (λ (t : ℕ). first t % m) e
  where
    first : ℕ → ℕ
    first t = mul_mod (get_or row i 0) (inv_mod (big_q / t % t) t) t * (big_q / t)
sum-one (row ∷ rows) (n ∷ ms) big_q i (suc j) m h l e f =
    ap (λ (t : ℕ). t % m) (Nat.add_comm first (crt_sum rows ms big_q i))
    ∙ sym (Nat.add-mod-mod (crt_sum rows ms big_q i) first m)
    ∙ ap (λ (t : ℕ). (crt_sum rows ms big_q i + t) % m)
        (zero-product _ (big_q / n.value) m (f 0 (omega arith) (λ z. absurd (omega arith))))
    ∙ ap (λ (t : ℕ). t % m) (Nat.add-zero (crt_sum rows ms big_q i))
    ∙ sum-one rows ms big_q i j m h.1 (omega arith) e
        (λ k b ne. f (suc k) (omega arith) (λ z. ne (omega arith)))
  where
    first : ℕ
    first =
        mul_mod (get_or row i 0) (inv_mod (big_q / n.value % n.value) n.value) n.value
        * (big_q / n.value)

pub modulus-bounds :
    (ms : List Modulus) (j : ℕ) → AreWords ms → j < length ms → IsU64 (modulus_at ms j)
modulus-bounds [] j w l = absurd (omega arith)
modulus-bounds (m ∷ ms) zero w l = w.0.1
modulus-bounds (m ∷ ms) (suc j) w l = modulus-bounds ms j w.1 (omega arith)

modulus-pos : (ms : List Modulus) (j : ℕ) → AreWords ms → j < length ms → 0 < modulus_at ms j
modulus-pos [] j w l = absurd (omega arith)
modulus-pos (m ∷ ms) zero w l = w.0.0
modulus-pos (m ∷ ms) (suc j) w l = modulus-pos ms j w.1 (omega arith)

cofactor :
    (ms : List Modulus) (j : ℕ)
    → AreWords ms
    → j < length ms
    → modulus_product ms / modulus_at ms j ≡ others ms j
cofactor ms j w l =
    ap (λ (t : ℕ). t / modulus_at ms j)
      (product-others ms j l ∙ Nat.mul_comm (modulus_at ms j) (others ms j))
    ∙ Nat.mul-div_cancel (others ms j) (modulus-pos ms j w l)

mod-multiple : (x q m k : ℕ) → q ≡ m * k → x % q % m ≡ x % m
mod-multiple x q m k e = rw e (Nat.mod-mod_of_dvd m x (Nat.dvd-mul_right m k))

-- A residue times an inverse, times what it inverts, is the residue.
pub inverted-term :
    (r inverse c m : ℕ)
    → 0 < m
    → IsU64 m
    → mul_mod (c % m) inverse m ≡ 1
    → r < m
    → mul_mod r inverse m * c % m ≡ r
inverted-term r inverse c m pos fits one small =
    let inner : inverse * c % m ≡ 1 =
      ap (λ (t : ℕ). t % m) (Nat.mul_comm inverse c)
      ∙ sym (mod-mul-mod c inverse m)
      ∙ sym (mul_mod_lem m pos fits (c % m) inverse)
      ∙ one in
    ap (λ (t : ℕ). t * c % m) (mul_mod_lem m pos fits r inverse)
    ∙ mod-mul-mod (r * inverse) c m
    ∙ ap (λ (t : ℕ). t % m) (Nat.mul_assoc r inverse c)
    ∙ sym (mul-mod-mod r (inverse * c) m)
    ∙ ap (λ (t : ℕ). r * t % m) inner
    ∙ ap (λ (t : ℕ). t % m) (Nat.mul-one r)
    ∙ mod-eq_small r m small

-- For moduli that are positive words, a component with an entry at `i` for each, and a modulus `j`
-- above 1 of them for which the product of the others satisfies the equation of Fermat's little
-- theorem, and an entry `j` that is below its modulus: the constants and the value of coefficient
-- `i` are computed, the value is below the product of the moduli, and its remainder by modulus `j`
-- is entry `j`.
pub true_value-residue_at :
    (rows : List (List ℕ)) (ms : List Modulus) (i j : ℕ)
    → AreWords ms
    → HasEntries i rows ms
    → j < length ms
    → 1 < modulus_at ms j
    → (modulus_product ms / modulus_at ms j % modulus_at ms j) ^ (modulus_at ms j - 1)
        % modulus_at ms j
      ≡ 1
    → residue_at rows j i < modulus_at ms j
    → (constants : List (BigUint × ℕ)) × (v : BigUint) × (crt_constants (basis_product ms) ms
        ≡ ok constants)
      × (true_value rows ms constants (basis_product ms) i ≡ ok v)
      × (value v < modulus_product ms)
      × (value v % modulus_at ms j ≡ residue_at rows j i)
true_value-residue_at rows ms i j w h l large fermat small =
    let (constants, v, made, run, _, exact) = true_value_lem rows ms i w h in
    let m = modulus_at ms j in
    let total = crt_sum rows ms (modulus_product ms) i in
    let one =
      mul_mod-inv_mod m large (modulus-bounds ms j w l) (modulus_product ms / m % m) fermat in
    let vanish : (k : ℕ) → k < length ms → k ≢ j → modulus_product ms / modulus_at ms k % m ≡ 0 =
      λ k b ne. ap (λ (t : ℕ). t % m) (cofactor ms k w b) ∙ others-vanish ms k j b l ne in
    let whole : modulus_product ms ≡ m * others ms j = product-others ms j l in
    let same : total % modulus_product ms % m ≡ total % m =
      mod-multiple total (modulus_product ms) m (others ms j) whole in
    (
      constants,
      v,
      made,
      run,
      subst (λ (t : ℕ). t < modulus_product ms) (sym exact)
          (Nat.mod-lt total (modulus_product-pos ms w)),
      ap (λ (t : ℕ). t % m) exact
          ∙ same
          ∙ sum-one rows ms (modulus_product ms) i j m h l refl vanish
          ∙ inverted-term (residue_at rows j i) (inv_mod (modulus_product ms / m % m) m)
              (modulus_product ms / m) m (modulus-pos ms j w l) (modulus-bounds ms j w l) one small,
    )
