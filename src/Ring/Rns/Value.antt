-- ===== src/Ring/Rns/Value.antt =====
-- The big-integer computation is exact: a coefficient is its sum of terms modulo the product.
use native.Mathlib.Nat
use native.Mathlib.Nat.{mul-le-mul}
use phantom_fhe.Base.{
  ℕ, suc, ◌+◌, ◌*◌, ◌/◌, ◌%◌, ◌≤◌, ◌<◌, ◌≡◌, refl, sym, ap, ◌∙◌, List, [], ◌∷◌, ok, All, length,
  get_or, IsU64, index_lem, arith,
}
use phantom_fhe.Ring.Error.{RingError}
use phantom_fhe.Ring.Types.{Modulus}
use phantom_fhe.Ring.Reduce.{mul_mod, inv_mod}
use phantom_fhe.Ring.Reduce.Range.{mul_mod-lt}
use phantom_fhe.Ring.BigUint
use phantom_fhe.Ring.BigUint.{BigUint}
use phantom_fhe.Ring.BigUint.Value.{value, IsNormal}
use phantom_fhe.Ring.BigUint.Arith.{add_lem, mul_u64_lem, big_zero-value, big_zero-IsNormal}
use phantom_fhe.Ring.Rns.{basis_product, crt_constants, combine, true_value}
use phantom_fhe.Ring.Rns.Constants.{
  subtract_while_lem, modulus_product, product_from_lem, crt_constant_lem,
}

-- One coefficient's sum of terms, on numbers: a residue times the inverse of `Q / q`, modulo `q`,
-- times `Q / q`, for each component.
abbrev pub crt_sum : List (List ℕ) → List Modulus → ℕ → ℕ → ℕ
crt_sum [] ms big_q i = 0
crt_sum (row ∷ rows) [] big_q i = 0
crt_sum (row ∷ rows) (m ∷ ms) big_q i =
    mul_mod (get_or row i 0) (inv_mod (big_q / m.value % m.value) m.value) m.value
      * (big_q / m.value)
    + crt_sum rows ms big_q i

-- A component for each modulus, with an entry at the index.
abbrev pub HasEntries : ℕ → List (List ℕ) → List Modulus → Type 0
HasEntries i [] [] = Unit {0}
HasEntries i [] (m ∷ ms) = ⊥
HasEntries i (row ∷ rows) [] = ⊥
HasEntries i (row ∷ rows) (m ∷ ms) = (i < length row) × HasEntries i rows ms

abbrev pub AreWords : List Modulus → Type 0
AreWords ms = All (λ m. (0 < m.value) × IsU64 m.value) ms

combine_lem :
    (rows : List (List ℕ)) (ms : List Modulus) (big_q t : BigUint) (i : ℕ)
    → IsNormal big_q
    → IsNormal t
    → AreWords ms
    → HasEntries i rows ms
    → (constants : List (BigUint × ℕ)) × (sum : BigUint) × (crt_constants big_q ms ≡ ok constants)
      × (combine rows ms constants i t ≡ ok sum)
      × (value sum ≡ value t + crt_sum rows ms (value big_q) i)
      × IsNormal sum
unfolding crt_constants combine
combine_lem [] [] big_q t i nq nt w h = ([], t, refl, refl, sym (Nat.add-zero (value t)), nt)
combine_lem [] (m ∷ ms) big_q t i nq nt w h = absurd h
combine_lem (row ∷ rows) [] big_q t i nq nt w h = absurd h
combine_lem (row ∷ rows) (m ∷ ms) big_q t i nq nt w h =
    let inverse = inv_mod (value big_q / m.value % m.value) m.value in
    let factor = mul_mod (get_or row i 0) inverse m.value in
    let small : factor < m.value = mul_mod-lt m.value w.0.0 w.0.1 (get_or row i 0) inverse in
    let (m_i, made, quotient, ni) = crt_constant_lem big_q m nq w.0.0 w.0.1 in
    let (product, np) = mul_u64_lem m_i factor ni (omega (arith, small, w.0.1)) in
    let (added, na) = add_lem t (BigUint.mul_u64 m_i factor) nt np in
    let (constants, sum, all, run, total, ns) =
      combine_lem rows ms big_q (BigUint.add t (BigUint.mul_u64 m_i factor)) i nq na w.1 h.1 in
    (
      (m_i, inverse) ∷ constants,
      sum,
      rw (made, all),
      rw (index_lem {E = RingError} row i 0 h.0) run,
      total
          ∙ regroup (value t) (value (BigUint.mul_u64 m_i factor)) (value m_i) factor
              (value big_q / m.value) (crt_sum rows ms (value big_q) i) _ added product quotient,
      ns,
    )
  where
    regroup : (t p v f k rest s : ℕ) → s ≡ t + p → p ≡ v * f → v ≡ k → s + rest ≡ t + (f * k + rest)
    regroup t p v f k rest s a b c = grind (arith, a, b, c)

crt_sum-le :
    (rows : List (List ℕ)) (ms : List Modulus) (big_q i : ℕ)
    → AreWords ms
    → HasEntries i rows ms
    → crt_sum rows ms big_q i ≤ length ms * big_q
crt_sum-le [] [] big_q i w h = omega (arith, Nat.zero-mul big_q)
crt_sum-le [] (m ∷ ms) big_q i w h = absurd h
crt_sum-le (row ∷ rows) [] big_q i w h = absurd h
crt_sum-le (row ∷ rows) (m ∷ ms) big_q i w h =
    let inverse = inv_mod (big_q / m.value % m.value) m.value in
    let factor = mul_mod (get_or row i 0) inverse m.value in
    let small : factor < m.value = mul_mod-lt m.value w.0.0 w.0.1 (get_or row i 0) inverse in
    let term : factor * (big_q / m.value) ≤ m.value * (big_q / m.value) =
      mul-le-mul {n₂ = m.value} {m₂ = big_q / m.value} (omega arith) (omega arith) in
    grind (
      arith,
      term,
      Nat.div-add-mod big_q m.value,
      crt_sum-le rows ms big_q i w.1 h.1,
      Nat.suc-mul (length ms) big_q,
    )

pub modulus_product-pos : (ms : List Modulus) → AreWords ms → 0 < modulus_product ms
modulus_product-pos [] w = omega arith
modulus_product-pos (m ∷ ms) w =
    let rest = modulus_product-pos ms w.1 in
    let all : 1 * 1 ≤ m.value * modulus_product ms =
      mul-le-mul {n₁ = 1} {m₁ = 1} {n₂ = m.value} {m₂ = modulus_product ms} (omega (arith, w.0.0))
        (omega arith) in
    omega (arith, all)

one-value : (value (BigUint.from_u64 1) ≡ 1) × IsNormal (BigUint.from_u64 1)
unfolding BigUint.from_u64
one-value = (refl, record { words = (omega arith, tt); trimmed = ground arith })

pub basis_product_lem :
    (ms : List Modulus)
    → AreWords ms
    → (value (basis_product ms) ≡ modulus_product ms) × IsNormal (basis_product ms)
unfolding basis_product
basis_product_lem ms w =
    let (exact, normal) = product_from_lem (BigUint.from_u64 1) ms one-value.1 (words ms w) in
    (
      exact ∙ ap (λ (x : ℕ). x * modulus_product ms) one-value.0 ∙ Nat.one-mul (modulus_product ms),
      normal,
    )
  where
    words : (ns : List Modulus) → AreWords ns → All (λ m. IsU64 m.value) ns
    words [] h = tt
    words (n ∷ ns) h = (h.0.1, words ns h.1)

pub true_value-IsNormal :
    (rows : List (List ℕ)) (ms : List Modulus) (i : ℕ)
    → AreWords ms
    → HasEntries i rows ms
    → (constants : List (BigUint × ℕ)) × (v : BigUint) × (crt_constants (basis_product ms) ms
        ≡ ok constants)
      × (true_value rows ms constants (basis_product ms) i ≡ ok v)
      × (value (basis_product ms) ≡ modulus_product ms)
      × (value v ≡ crt_sum rows ms (modulus_product ms) i % modulus_product ms)
      × IsNormal v
unfolding true_value
true_value-IsNormal rows ms i w h =
    let (exact, nq) = basis_product_lem ms w in
    let (constants, sum, made, run, total, ns) =
      combine_lem rows ms (basis_product ms) BigUint.big_zero i nq big_zero-IsNormal w h in
    let plain : value sum ≡ crt_sum rows ms (modulus_product ms) i =
      total ∙ (rw (big_zero-value, exact) (Nat.zero-add _)) in
    let pos = modulus_product-pos ms w in
    let (v, stop, rest, nv) =
      subtract_while_lem (suc (length ms)) sum (basis_product ms) ns nq (rw exact pos) (
        rw (exact, plain)
          (grind (
            arith,
            pos,
            crt_sum-le rows ms (modulus_product ms) i w h,
            Nat.suc-mul (length ms) (modulus_product ms),
          ))) in
    (constants, v, made, rw (run, stop), exact, rest ∙ (rw (plain, exact)), nv)

-- For moduli that are positive words and a component with an entry at `i` for each: the product of
-- the basis is exact, the constants are computed, the loop of subtractions comes to its end within
-- its fuel, and the value of coefficient `i` is its sum of terms modulo the product.
pub true_value_lem :
    (rows : List (List ℕ)) (ms : List Modulus) (i : ℕ)
    → AreWords ms
    → HasEntries i rows ms
    → (constants : List (BigUint × ℕ)) × (v : BigUint) × (crt_constants (basis_product ms) ms
        ≡ ok constants)
      × (true_value rows ms constants (basis_product ms) i ≡ ok v)
      × (value (basis_product ms) ≡ modulus_product ms)
      × (value v ≡ crt_sum rows ms (modulus_product ms) i % modulus_product ms)
true_value_lem rows ms i w h =
    let (constants, v, made, run, product, exact, _) = true_value-IsNormal rows ms i w h in
    (constants, v, made, run, product, exact)
