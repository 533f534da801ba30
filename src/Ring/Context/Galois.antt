-- ===== src/Ring/Context/Galois.antt =====
-- The automorphism moves every coefficient to its own place, negated where X ^ N is passed.
use native.Mathlib.Nat
use native.Mathlib.Decide.{dec_lt}
use phantom_fhe.Base.{
  ℕ, zero, suc, ◌+◌, ◌-◌, ◌*◌, ◌%◌, ◌∣◌, ◌≤◌, ◌<◌, ◌≡◌, ◌≢◌, refl, sym, ap, ◌∙◌, List, [], ◌∷◌, ok,
  arith, u64, u64_mod, ◌^◌, ltb, if◌then◌else◌, length, get_or, set, replicate, index_lem,
  length-set, get_or-set_self, get_or-set_ne, length-replicate, subst,
}
use phantom_fhe.Base.Residues.{
  mod-eq_small, mod-sub, add-mod_cancel, mul-mod_cong, pow-add, even-mod-odd,
}
use phantom_fhe.Ring.Reduce.{neg_mod}
use phantom_fhe.Ring.Error.{RingError}
use phantom_fhe.Ring.Types.{Modulus}
use phantom_fhe.Ring.Poly.{Poly, poly_zero}
use phantom_fhe.Ring.Context.{Ring, ring_zero}
use phantom_fhe.Ring.Context.Rows.{AreRows}
use phantom_fhe.Ring.Context.WellFormed.{IsPoly, check_poly_lem}
use phantom_fhe.Ring.Gcd.{gcd, coprime-multiple, gcd-odd-power}
use phantom_fhe.Ring.Context.Product.{permute_row, permute_rows, check_element, apply_automorphism}

-- Where coefficient `i` goes.
abbrev pub place : ℕ → ℕ → ℕ → ℕ
place n k i = if ltb (i * k % (2 * n)) n then i * k % (2 * n) else i * k % (2 * n) - n

half-of : (n : ℕ) (x : ℕ) → x % (2 * n) % n ≡ x % n
half-of n x = Nat.mod-mod_of_dvd n x (Nat.dvd-mul_left n 2)

place-mod : (n k i : ℕ) → 0 < n → place n k i ≡ i * k % n
place-mod n k i pos = ground (
  arith,
  half-of n (i * k),
  Nat.mod-lt (i * k) {m = 2 * n} (omega arith),
  mod-eq_small (i * k % (2 * n)) n,
  mod-sub (i * k % (2 * n)) n,
)

-- Different coefficients go to different places.
place-injective :
    (n k i j : ℕ)
    → 0 < n
    → gcd (k % (2 * n)) (2 * n) ≡ 1
    → i < j
    → j < n
    → place n k i ≢ place n k j
place-injective n k i j pos coprime h l e =
    absurd (omega (arith, Nat.mod-eq_of_lt {n = j - i} {m = n} (omega arith), multiple))
  where
    same : i * k % n ≡ j * k % n
    same = sym (place-mod n k i pos) ∙ e ∙ place-mod n k j pos

    difference : (j - i) * k % n ≡ 0
    difference =
        add-mod_cancel ((j - i) * k) 0 (i * k) n pos (
          ap (λ (t : ℕ). t % n)
            (sym (Nat.add-mul (j - i) i k) ∙ ap (λ (t : ℕ). t * k) (omega arith))
          ∙ sym same
          ∙ ap (λ (t : ℕ). t % n) (sym (Nat.zero-add (i * k))))
        ∙ Nat.zero-mod n

    reduced : k % (2 * n) * (j - i) % n ≡ 0
    reduced =
        mul-mod_cong (k % (2 * n)) k (j - i) n (half-of n k)
        ∙ ap (λ (t : ℕ). t % n) (Nat.mul_comm k (j - i))
        ∙ difference

    whole : 2 * n * (j - i) % n ≡ 0
    whole =
        ap (λ (t : ℕ). t % n)
          (ap (λ (t : ℕ). t * (j - i)) (Nat.mul_comm 2 n) ∙ Nat.mul_assoc n 2 (j - i))
        ∙ Nat.mul-mod_right n (2 * (j - i))

    multiple : (j - i) % n ≡ 0
    multiple = coprime-multiple (k % (2 * n)) (2 * n) (j - i) n coprime reduced whole

-- What coefficient `i` becomes.
abbrev pub moved : ℕ → ℕ → ℕ → List ℕ → ℕ → ℕ
moved n q k xs i = if ltb (i * k % (2 * n)) n then get_or xs i 0 else neg_mod (get_or xs i 0) q

module _ (n q k : ℕ) (xs : List ℕ) (pos : 0 < n) (coprime : gcd (k % (2 * n)) (2 * n) ≡ 1)
    (full : length xs ≡ n) (wrapped : (i : ℕ) → u64 (i * k) % u64 (2 * n) ≡ i * k % (2 * n)) where
  abbrev Placed : ℕ → List ℕ → Type 0
  Placed i out = (j : ℕ) → j < i → get_or out (place n k j) 0 ≡ moved n q k xs j

  place-lt : (i : ℕ) → place n k i < n
  place-lt i = omega (arith, place-mod n k i pos, Nat.mod-lt (i * k) pos)

  Placed-set :
      (i : ℕ) (out : List ℕ)
      → i < n
      → length out ≡ n
      → Placed i out
      → Placed (i + 1) (set out (place n k i) (moved n q k xs i))
  Placed-set i out h l old j lt = elim (dec_lt j i) [
    | yes before ↦
        get_or-set_ne out (place n k i) (place n k j) (moved n q k xs i) 0
          (λ e. place-injective n k j i pos coprime before h (sym e))
        ∙ old j before
    | no other ↦
        subst
          (λ (t : ℕ).
            get_or (set out (place n k i) (moved n q k xs i)) (place n k t) 0 ≡ moved n q k xs t)
          (omega arith) (get_or-set_self out (place n k i) (moved n q k xs i) 0 (rw l (place-lt i)))
  ]

  permute_row-step :
      (rounds i : ℕ) (out : List ℕ)
      → i < n
      → length out ≡ n
      → permute_row n q k xs (suc rounds) i out
        ≡ permute_row n q k xs rounds (i + 1) (set out (place n k i) (moved n q k xs i))
  unfolding permute_row
  permute_row-step rounds i out h l = rw (
    wrapped i,
    index_lem {E = RingError} xs i 0 (rw full h),
    index_lem {E = RingError} out (place n k i) 0 (rw l (place-lt i)),
  )

  permute_row_lem :
      (rounds i : ℕ) (out : List ℕ)
      → i + rounds ≡ n
      → length out ≡ n
      → Placed i out
      → (row : List ℕ) × (permute_row n q k xs rounds i out ≡ ok row)
        × (length row ≡ n)
        × Placed n row
  permute_row_lem zero i out e l old =
      (out, unfold permute_row in refl, l, subst (λ (t : ℕ). Placed t out) (omega arith) old)
  permute_row_lem (suc rounds) i out e l old = rw (permute_row-step rounds i out (omega arith) l) (
      permute_row_lem rounds (i + 1) (set out (place n k i) (moved n q k xs i)) (omega arith)
        (length-set out (place n k i) (moved n q k xs i) ∙ l)
        (Placed-set i out (omega arith) l old))

-- A component with all its coefficients moved to their places.
pub record IsMoved (n q k : ℕ) (xs row : List ℕ) : Type 0 where
  pub same_length : length row ≡ n
  pub placed : (i : ℕ) → i < n → get_or row (place n k i) 0 ≡ moved n q k xs i

abbrev pub AreMoved : ℕ → ℕ → List Modulus → List (List ℕ) → List (List ℕ) → Type 0
AreMoved n k [] xs rows = Unit {0}
AreMoved n k (m ∷ ms) [] rows = ⊥
AreMoved n k (m ∷ ms) (x ∷ xs) [] = ⊥
AreMoved n k (m ∷ ms) (x ∷ xs) (row ∷ rows) = IsMoved n m.value k x row × AreMoved n k ms xs rows

module _ (n k : ℕ) (pos : 0 < n) (coprime : gcd (k % (2 * n)) (2 * n) ≡ 1)
    (wrapped : (i : ℕ) → u64 (i * k) % u64 (2 * n) ≡ i * k % (2 * n)) where
  permute_rows_lem :
      (ms : List Modulus) (xs : List (List ℕ))
      → AreRows n ms xs
      → (rows : List (List ℕ)) × (permute_rows n k ms xs (replicate (length ms) (replicate n 0))
          ≡ ok rows)
        × AreMoved n k ms xs rows
  unfolding permute_rows
  permute_rows_lem [] xs h = ([], refl, tt)
  permute_rows_lem (m ∷ ms) [] h = absurd h
  permute_rows_lem (m ∷ ms) (x ∷ xs) h =
      let (row, computed, same_length, placed) =
        permute_row_lem n m.value k x pos coprime h.0.0 wrapped n 0 (replicate n 0) (omega arith)
          (length-replicate n 0) (λ j lt. absurd (omega arith)) in
      let (rows, rest, all) = permute_rows_lem ms xs h.1 in
      (
        row ∷ rows,
        rw (computed, rest),
        (record { same_length = same_length; placed = placed }, all),
      )

double-power : (e : ℕ) → 2 * 2 ^ e ≡ 2 ^ suc e
double-power e = sym (Nat.pow-succ' 2 e)

double-dvd : (e : ℕ) → e < 63 → 2 * 2 ^ e ∣ u64_mod
double-dvd e h =
    let exponent : suc e + (63 - e) ≡ 64 = omega (arith, h) in
    subst (◌∣◌ (2 * 2 ^ e))
      (ap (λ (t : ℕ). t * 2 ^ (63 - e)) (double-power e)
        ∙ sym (pow-add 2 (suc e) (63 - e))
        ∙ ap (λ (t : ℕ). 2 ^ t) exponent)
      (Nat.dvd-mul_right (2 * 2 ^ e) (2 ^ (63 - e)))

-- At a power of two the wrap-around is lost in the remainder.
wrapped-power :
    (e : ℕ)
    → e < 63
    → (u64 (2 * 2 ^ e) ≡ 2 * 2 ^ e) × ((x : ℕ) → u64 x % u64 (2 * 2 ^ e) ≡ x % (2 * 2 ^ e))
wrapped-power e h =
    let below : 2 ^ e ≤ 2 ^ 62 =
      Nat.pow-le-pow_right {n = 2} (omega arith) {j = 62} (omega (arith, h)) in
    let small : u64 (2 * 2 ^ e) ≡ 2 * 2 ^ e = mod-eq_small _ u64_mod (omega (arith, below)) in
    (small, λ x. rw small (Nat.mod-mod_of_dvd (2 * 2 ^ e) x (double-dvd e h)))

-- An odd element is coprime to twice a power of two, also after reduction.
odd-coprime : (k e : ℕ) → k % 2 ≡ 1 → gcd (k % (2 * 2 ^ e)) (2 * 2 ^ e) ≡ 1
odd-coprime k e odd =
    ap (gcd (k % (2 * 2 ^ e))) (double-power e)
    ∙ gcd-odd-power (k % (2 * 2 ^ e)) (suc e) (even-mod-odd k (2 ^ e) odd)

-- For a polynomial of the ring, at a degree of 2 ^ e below 2 ^ 63, and an odd element k, the
-- automorphism is computed, and in every component coefficient i stands at its own place in the
-- result, negated where i * k % 2n is n or more, also where i * k does not fit a word.
pub apply_automorphism-AreMoved :
    (r : Ring) (p : Poly) (k e : ℕ)
    → IsPoly r p
    → e < 63
    → r.degree.get ≡ 2 ^ e
    → k % 2 ≡ 1
    → (s : Poly) × (apply_automorphism r p k ≡ ok s)
      × (s.degree ≡ r.degree.get)
      × AreMoved r.degree.get k r.moduli p.coeffs s.coeffs
unfolding apply_automorphism check_element ring_zero poly_zero
apply_automorphism-AreMoved r p k e vp h degree odd =
    let n = r.degree.get in
    let pos : 0 < n =
      rw degree (Nat.pow-le-pow_right {n = 2} (omega arith) {i = 0} (omega arith)) in
    let coprime : gcd (k % (2 * n)) (2 * n) ≡ 1 = rw degree (odd-coprime k e odd) in
    let fits : u64 (2 * n) ≡ 2 * n = rw degree (wrapped-power e h).0 in
    let (rows, computed, all) =
      permute_rows_lem n k pos coprime (λ i. rw degree ((wrapped-power e h).1 (i * k))) r.moduli
        p.coeffs vp.rows in
    let accepted : check_element k (u64 (2 * n)) ≡ ok tt = rw fits (ground (arith, coprime, pos)) in
    (
      record { degree = n; coeffs = rows },
      rw (check_poly_lem r p vp, accepted, computed) refl,
      refl,
      all,
    )
