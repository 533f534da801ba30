-- ===== src/Ring/Rns/Rounding.antt =====
-- Scaled rounding on big integers is rounding of the fraction.
use phantom_fhe.Base.{
  ℕ, ◌+◌, ◌-◌, ◌*◌, ◌/◌, ◌%◌, ◌≤◌, ◌<◌, ◌≡◌, refl, sym, ap, ◌∙◌, Bool, Bool-cases, inl, inr, ltb,
  ltb→lt, ltb→ge, if◌then◌else◌, ok, IsU64, arith,
}
use phantom_fhe.Base.Residues.{div_unique, mod_unique}
use phantom_fhe.Ring.Reduce.{neg_mod}
use phantom_fhe.Ring.BigUint
use phantom_fhe.Ring.BigUint.{BigUint}
use phantom_fhe.Ring.BigUint.Value.{value, IsNormal}
use phantom_fhe.Ring.BigUint.Arith.{add_lem, sub_lem, mul_u64_lem}
use phantom_fhe.Ring.BigUint.Compare.{cmp_lem}
use phantom_fhe.Ring.BigUint.Division.{divmod_u64_lem}
use phantom_fhe.Ring.BigUint.Bits.{is_less}
use phantom_fhe.Ring.BigUint.LongDivision.{divmod_lem, is_less_lem, from_u64_lem}
use phantom_fhe.Ring.Rns.Rescale.{
  is_negative, centered_magnitude, scale_round, signed_residue, rounded_residue,
}

-- `m * t / q` to the nearest integer, a half going up.
abbrev pub nearest : ℕ → ℕ → ℕ → ℕ
nearest m t q = (2 * (m * t) + q) / (2 * q)

-- The magnitude of the residue of least magnitude.
abbrev pub least_magnitude : ℕ → ℕ → ℕ
least_magnitude q v = if ltb q (v * 2) then q - v else v

abbrev pub signed : Bool → ℕ → ℕ → ℕ
signed negative r q = if negative then neg_mod (r % q) q else r % q

nearest_up : (a n r q : ℕ) → a * q + r ≡ n → r < q → q ≤ r * 2 → (2 * n + q) / (2 * q) ≡ a + 1
nearest_up a n r q e l h =
    ap (λ (t : ℕ). t / (2 * q)) {y = (a + 1) * (2 * q) + (2 * r - q)} (grind (arith, e))
    ∙ div_unique (a + 1) (2 * r - q) (2 * q) (omega arith)

nearest_down : (a n r q : ℕ) → a * q + r ≡ n → r * 2 < q → (2 * n + q) / (2 * q) ≡ a
nearest_down a n r q e l =
    ap (λ (t : ℕ). t / (2 * q)) {y = a * (2 * q) + (2 * r + q)} (grind (arith, e))
    ∙ div_unique a (2 * r + q) (2 * q) (omega arith)

scale_round_lem :
    (big_q m : BigUint) (t : ℕ)
    → IsNormal big_q
    → 0 < value big_q
    → IsNormal m
    → IsU64 t
    → (r : BigUint) × (scale_round big_q t m ≡ ok r)
      × (value r ≡ nearest (value m) t (value big_q))
      × IsNormal r
unfolding scale_round
scale_round_lem big_q m t nq pos nm w =
    let (scaled, ns) = mul_u64_lem m t nm w in
    let (q, r, divided, parts) = divmod_lem (BigUint.mul_u64 m t) big_q ns nq pos in
    let (doubled, nd) = mul_u64_lem r 2 parts.normal_rest (omega arith) in
    let (one, n1) = from_u64_lem 1 (omega arith) in
    let (up, nu) = add_lem q (BigUint.from_u64 1) parts.normal n1 in
    let total = parts.total ∙ scaled in
    let less = is_less_lem (BigUint.mul_u64 r 2) big_q nd nq in
    elim (Bool-cases (is_less (BigUint.cmp (BigUint.mul_u64 r 2) big_q))) [
      | inl e ↦ (
        q,
        rw (divided, e) refl,
        sym (
            nearest_down (value q) (value m * t) (value r) (value big_q) total
              (omega (arith, doubled, ltb→lt _ _ (sym less ∙ e)))),
        parts.normal,
      )
      | inr e ↦ (
        BigUint.add q (BigUint.from_u64 1),
        rw (divided, e) refl,
        up
            ∙ ap (λ (x : ℕ). value q + x) one
            ∙ sym (
                nearest_up (value q) (value m * t) (value r) (value big_q) total parts.below
                  (omega (arith, doubled, ltb→ge _ _ (sym less ∙ e)))),
        nu,
      )
    ]

pub is_negative_lem :
    (big_q v : BigUint)
    → IsNormal big_q
    → IsNormal v
    → is_negative big_q v ≡ ltb (value big_q) (value v * 2)
unfolding is_negative
is_negative_lem big_q v nq nv =
    let (doubled, nd) = mul_u64_lem v 2 nv (omega arith) in
    rw (cmp_lem (BigUint.mul_u64 v 2) big_q nd nq, is_negative, doubled) (ground arith)

pub centered_magnitude_lem :
    (big_q v : BigUint)
    → IsNormal big_q
    → IsNormal v
    → value v ≤ value big_q
    → (value (centered_magnitude big_q v) ≡ least_magnitude (value big_q) (value v))
      × IsNormal (centered_magnitude big_q v)
unfolding centered_magnitude
centered_magnitude_lem big_q v nq nv le =
    let sign = is_negative_lem big_q v nq nv in
    elim (Bool-cases (is_negative big_q v)) [
      | inl e ↦ rw (e, sym sign ∙ e) (sub_lem big_q v nq nv le)
      | inr e ↦ rw (e, sym sign ∙ e) (refl, nv)
    ]

signed_residue_lem :
    (negative : Bool) (r : BigUint) (q : ℕ)
    → IsNormal r
    → 0 < q
    → IsU64 q
    → signed_residue negative r q ≡ ok (signed negative (value r) q)
unfolding signed_residue
signed_residue_lem negative r q n pos w =
    let (a, rest, divided, total, below, _) = divmod_u64_lem q pos w r n in
    let same : rest ≡ value r % q =
      sym (mod_unique (value a) rest q below) ∙ ap (λ (x : ℕ). x % q) total in
    rw divided (ap (λ (x : ℕ). ok (if negative then neg_mod x q else x)) same)

-- For big integers in normal form, a value of at most `big_qp`, a positive `big_q`, and positive
-- words t and q: the residue is computed without a panic, and is that of the value, as the number
-- of least magnitude modulo `big_qp`, times t over `big_q`, rounded to the nearest integer.
pub rounded_residue_lem :
    (big_qp big_q v : BigUint) (t q : ℕ)
    → IsNormal big_qp
    → IsNormal big_q
    → IsNormal v
    → 0 < value big_q
    → value v ≤ value big_qp
    → IsU64 t
    → 0 < q
    → IsU64 q
    → rounded_residue big_qp big_q t q v
      ≡ ok (
          signed
            (ltb (value big_qp) (value v * 2))
            (nearest (least_magnitude (value big_qp) (value v)) t (value big_q))
            q)
unfolding rounded_residue
rounded_residue_lem big_qp big_q v t q nqp nq nv pos le wt posq wq =
    let (magnitude, nm) = centered_magnitude_lem big_qp v nqp nv le in
    let (r, rounded, exact, nr) =
      scale_round_lem big_q (centered_magnitude big_qp v) t nq pos nm wt in
    rw rounded (
      signed_residue_lem (is_negative big_qp v) r q nr posq wq
      ∙ ap (λ (b : Bool). ok (signed b (value r) q)) (is_negative_lem big_qp v nqp nv)
      ∙ ap (λ (x : ℕ). ok (signed (ltb (value big_qp) (value v * 2)) x q))
          (exact ∙ ap (λ (x : ℕ). nearest x t (value big_q)) magnitude))
