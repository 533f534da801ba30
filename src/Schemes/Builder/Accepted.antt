-- ===== src/Schemes/Builder/Accepted.antt =====
-- What parameters that the builder accepts satisfy.
use native.Mathlib.Nat
use phantom_fhe.Base.{
  ℕ, ◌*◌, ◌%◌, ◌<◌, ◌≡◌, ◌≢◌, sym, ap, ◌∙◌, subst, Bool, true, not, List, [], ◌∷◌, some, ok, ok_or,
  ◌==◌, ==_iff, leb, min, length, All, arith, inl, inr, Bool-cases, >>=-eq-ok, >>-eq-ok,
  guard-eq-ok, ok_or-eq-ok, ok_inj,
}
use phantom_fhe.Ring.Gcd.{gcd, coprime-multiple}
use phantom_fhe.Ring.Types.{Degree, Modulus, degree_new}
use phantom_fhe.Ring.Context.{Ring, ring_new}
use phantom_fhe.Schemes.Error.{
  lift_ring, invalid_parameters, ring_without_moduli, missing_degree, missing_plaintext_modulus,
}
use phantom_fhe.Schemes.Params.{
  BgvParams, bgv_params_new, has_no_moduli, least_value, min_modulus, is_repeated,
  check_distinct_moduli, check_coprime,
}
use phantom_fhe.Schemes.Builder.{BgvParamsBuilder, bgv_build, moduli_new, check_security}

abbrev pub Distinct : List Modulus → Type 0
Distinct [] = Unit {0}
Distinct (a ∷ moduli) = All (λ (b : Modulus). a.value ≢ b.value) moduli × Distinct moduli

is_repeated_lem :
    (a : Modulus) (moduli : List Modulus)
    → not (is_repeated a moduli) ≡ true
    → All (λ (b : Modulus). a.value ≢ b.value) moduli
unfolding is_repeated
is_repeated_lem a [] h = tt
is_repeated_lem a (b ∷ moduli) h = elim (Bool-cases (a.value == b.value)) [
  | inl e ↦ absurd (ground (arith, e, h))
  | inr e ↦ (
    (λ (same : a.value ≡ b.value). ground (arith, e, (==_iff a.value b.value).1 same)),
    is_repeated_lem a moduli (ground (arith, e, h)),
  )
]

check_distinct_moduli-Distinct :
    (moduli : List Modulus) → check_distinct_moduli moduli ≡ ok tt → Distinct moduli
unfolding check_distinct_moduli
check_distinct_moduli-Distinct [] h = tt
check_distinct_moduli-Distinct (a ∷ moduli) h =
    let (fresh, rest) = guard-eq-ok _ _ _ h in
    (is_repeated_lem a moduli fresh, check_distinct_moduli-Distinct moduli rest)

-- `t` can be cancelled modulo `q`.
abbrev pub Cancels : ℕ → Modulus → Type 0
Cancels t q = (x : ℕ) → t * x % q.value ≡ 0 → x % q.value ≡ 0

check_coprime-Cancels :
    (t : ℕ) (moduli : List Modulus) → check_coprime t moduli ≡ ok tt → All (Cancels t) moduli
unfolding check_coprime
check_coprime-Cancels t [] h = tt
check_coprime-Cancels t (q ∷ moduli) h =
    let (one, rest) = guard-eq-ok _ _ _ h in
    let coprime = (==_iff (gcd t q.value) 1).0 one in
    (
      (λ x zero_mod.
          coprime-multiple t q.value x q.value coprime zero_mod (Nat.mul-mod_right q.value x)),
      check_coprime-Cancels t moduli rest,
    )

least_value-lt :
    (t least : ℕ) (moduli : List Modulus)
    → t < least_value least moduli
    → (t < least) × All (λ (q : Modulus). t < q.value) moduli
unfolding least_value
least_value-lt t least [] h = (h, tt)
least_value-lt t least (q ∷ moduli) h =
    let (below, rest) = least_value-lt t (min least q.value) moduli h in
    (omega (arith, below), (omega (arith, below), rest))

min_modulus-lt :
    (t : ℕ) (moduli : List Modulus) {q : ℕ}
    → min_modulus moduli ≡ some q
    → t < q
    → All (λ (q : Modulus). t < q.value) moduli
unfolding min_modulus
min_modulus-lt t [] e h = tt
min_modulus-lt t (q ∷ moduli) e h = least_value-lt t q.value moduli (ground (arith, e, h))

-- Parameters with a plaintext modulus above one and below every modulus.
pub record AreInRange (params : BgvParams) : Type 0 where
  pub above_one : 1 < params.plaintext_modulus
  pub below_moduli : All (λ (q : Modulus). params.plaintext_modulus < q.value) params.ring.moduli
  pub some_moduli : 0 < length params.ring.moduli

pub bgv_params_new-accepted :
    (r : Ring) (t : ℕ) {params : BgvParams}
    → bgv_params_new r t ≡ ok params
    → (params.ring ≡ r) × (params.plaintext_modulus ≡ t) × AreInRange params
unfolding bgv_params_new has_no_moduli
bgv_params_new-accepted r t h =
    let (above, h1) = guard-eq-ok (not (leb t 1)) _ _ h in
    let (nonempty, h2) = guard-eq-ok (not (length r.moduli == 0)) _ _ h1 in
    let (q, eq, h3) =
      >>=-eq-ok (ok_or (min_modulus r.moduli) (invalid_parameters ring_without_moduli)) _ h2 in
    let (below, h4) = guard-eq-ok (not (leb q t)) _ _ h3 in
    let same = ok_inj h4 in
    let range : AreInRange record { ring = r; plaintext_modulus = t } = record {
      above_one = ground (arith, above);
      below_moduli =
          min_modulus-lt t r.moduli (ok_or-eq-ok _ (invalid_parameters ring_without_moduli) eq)
            (ground (arith, below));
      some_moduli = ground (arith, nonempty);
    } in
    (
      ap (λ (p : BgvParams). p.ring) (sym same),
      ap (λ (p : BgvParams). p.plaintext_modulus) (sym same),
      subst AreInRange same range,
    )

ring_new-moduli :
    (degree : Degree) (moduli : List Modulus) {r : Ring}
    → lift_ring (ring_new degree moduli) ≡ ok r
    → r.moduli ≡ moduli
unfolding ring_new
ring_new-moduli degree [] h = absurd (ground arith)
ring_new-moduli degree (m ∷ moduli) h = ap (λ (r : Ring). r.moduli) (sym (ok_inj h))

-- The parameters that the builder gives have a plaintext modulus above one and below every
-- ciphertext modulus, ciphertext moduli that are distinct, and a plaintext modulus that cancels
-- modulo each of them, whatever security test is used.
pub bgv_build_sound :
    (within : List Modulus → ℕ → Bool) (b : BgvParamsBuilder) {params : BgvParams}
    → bgv_build within b ≡ ok params
    → AreInRange params
      × Distinct params.ring.moduli
      × All (Cancels params.plaintext_modulus) params.ring.moduli
unfolding bgv_build
bgv_build_sound within b {params} h =
    let (degree_value, e1, h1) =
      >>=-eq-ok (ok_or b.degree (invalid_parameters missing_degree)) _ h in
    let (degree, e2, h2) = >>=-eq-ok (lift_ring (degree_new degree_value)) _ h1 in
    let (t, e3, h3) =
      >>=-eq-ok (ok_or b.plaintext_modulus (invalid_parameters missing_plaintext_modulus)) _ h2 in
    let (e4, h4) = guard-eq-ok (not (length b.moduli == 0)) _ _ h3 in
    let (moduli, e5, h5) = >>=-eq-ok (moduli_new b.moduli) _ h4 in
    let (distinct, h6) = >>-eq-ok (check_distinct_moduli moduli) _ h5 in
    let (coprime, h7) = >>-eq-ok (check_coprime t moduli) _ h6 in
    let (e8, h8) =
      >>-eq-ok (check_security within b.require_128_bit_security degree_value moduli) _ h7 in
    let (r, e9, h9) = >>=-eq-ok (lift_ring (ring_new degree moduli)) _ h8 in
    let (same_ring, same_modulus, range) = bgv_params_new-accepted r t h9 in
    let same : moduli ≡ params.ring.moduli =
      sym (ap (λ (r : Ring). r.moduli) same_ring ∙ ring_new-moduli degree moduli e9) in
    (
      range,
      subst Distinct same (check_distinct_moduli-Distinct moduli distinct),
      subst (λ (u : ℕ). All (Cancels u) params.ring.moduli) (sym same_modulus)
          (subst (All (Cancels t)) same (check_coprime-Cancels t moduli coprime)),
    )
