-- ===== src/Ring/Rns/Constants.antt =====
-- The steps on big integers: subtraction to the remainder, the product, and the constants.
use native.Mathlib.Nat
use native.Mathlib.Nat.{mul-le-mul}
use native.Mathlib.Decide.{dec_lt}
use phantom_fhe.Base.{
  ℕ, zero, suc, ◌*◌, ◌/◌, ◌%◌, ◌<◌, ◌≡◌, sym, ap, ◌∙◌, List, [], ◌∷◌, ok, All, IsU64, arith,
}
use phantom_fhe.Base.Residues.{mod-eq_small, div_unique, mod_unique}
use phantom_fhe.Ring.Types.{Modulus}
use phantom_fhe.Ring.Reduce.{inv_mod}
use phantom_fhe.Ring.BigUint
use phantom_fhe.Ring.BigUint.{BigUint}
use phantom_fhe.Ring.BigUint.Value.{value, IsNormal}
use phantom_fhe.Ring.BigUint.Arith.{sub_lem, mul_u64_lem}
use phantom_fhe.Ring.BigUint.Compare.{cmp_lem}
use phantom_fhe.Ring.BigUint.Division.{divmod_u64_lem}
use phantom_fhe.Ring.Rns.{product_from, crt_constant, subtract_while}

-- Repeated subtraction is the remainder, where the fuel allows for the quotient.
pub subtract_while_lem :
    (fuel : ℕ) (t big_q : BigUint)
    → IsNormal t
    → IsNormal big_q
    → 0 < value big_q
    → value t < fuel * value big_q
    → (v : BigUint) × (subtract_while fuel t big_q ≡ ok v)
      × (value v ≡ value t % value big_q)
      × IsNormal v
unfolding subtract_while
subtract_while_lem zero t big_q nt nq pos h = absurd (omega (arith, Nat.zero-mul (value big_q)))
subtract_while_lem (suc fuel) t big_q nt nq pos h = elim (dec_lt (value t) (value big_q)) [
  | yes l ↦
      let stop : subtract_while (suc fuel) t big_q ≡ ok t =
        rw (cmp_lem t big_q nt nq, subtract_while) (ground (arith, l)) in
      (t, stop, sym (mod-eq_small _ _ l), nt)
  | no n ↦
      let (exact, normal) = sub_lem t big_q nt nq (omega arith) in
      let (v, run, rest, nv) =
        subtract_while_lem fuel (BigUint.sub t big_q) big_q normal nq pos
          (grind (arith, exact, h, Nat.suc-mul fuel (value big_q))) in
      let step : subtract_while (suc fuel) t big_q ≡ ok v =
        rw (cmp_lem t big_q nt nq, subtract_while) (ground (arith, n, run)) in
      (
        v,
        step,
        rest ∙ ap (λ (x : ℕ). x % value big_q) exact ∙ sym (Nat.mod-eq-sub-mod (omega arith)),
        nv,
      )
]

abbrev pub modulus_product : List Modulus → ℕ
modulus_product [] = 1
modulus_product (m ∷ ms) = m.value * modulus_product ms

pub product_from_lem :
    (acc : BigUint) (ms : List Modulus)
    → IsNormal acc
    → All (λ m. IsU64 m.value) ms
    → (value (product_from acc ms) ≡ value acc * modulus_product ms)
      × IsNormal (product_from acc ms)
unfolding product_from
product_from_lem acc [] n h = (sym (Nat.mul-one (value acc)), n)
product_from_lem acc (m ∷ ms) n h =
    let (exact, normal) = mul_u64_lem acc m.value n h.0 in
    let (total, last) = product_from_lem (BigUint.mul_u64 acc m.value) ms normal h.1 in
    (
      total
          ∙ ap (λ (x : ℕ). x * modulus_product ms) exact
          ∙ Nat.mul_assoc (value acc) m.value (modulus_product ms),
      last,
    )

-- The constants are `Q / q` and the inverse that `inv_mod` computes of its residue.
pub crt_constant_lem :
    (big_q : BigUint) (m : Modulus)
    → IsNormal big_q
    → 0 < m.value
    → IsU64 m.value
    → (m_i : BigUint) × (crt_constant big_q m
        ≡ ok (m_i, inv_mod (value big_q / m.value % m.value) m.value))
      × (value m_i ≡ value big_q / m.value)
      × IsNormal m_i
unfolding crt_constant
crt_constant_lem big_q m nq pos fits =
    let (m_i, r, run, total, small, n) = divmod_u64_lem m.value pos fits big_q nq in
    let (k, y, again, sum, low, _) = divmod_u64_lem m.value pos fits m_i n in
    let quotient : value big_q / m.value ≡ value m_i =
      ap (λ (x : ℕ). x / m.value) (sym total) ∙ div_unique (value m_i) r m.value small in
    let residue : value m_i % m.value ≡ y =
      ap (λ (x : ℕ). x % m.value) (sym sum) ∙ mod_unique (value k) y m.value low in
    (m_i, rw (run, again, quotient, residue), sym quotient, n)
