-- ===== src/Ring/Rns/Switching.antt =====
-- The arithmetic of going down by a modulus: division by what is left out, modulo each modulus.
use native.Mathlib.Nat
use phantom_fhe.Base.{
  ℕ, suc, ◌+◌, ◌-◌, ◌*◌, ◌%◌, ◌^◌, ◌≤◌, ◌<◌, ◌≡◌, sym, ap, ◌∙◌, IsU64, u64, u64_mod, u128, u128_mod,
  word-mul_fits, arith,
}
use phantom_fhe.Base.Residues.{mod-eq_small, mul-mod-mod}
use phantom_fhe.Ring.Reduce.{add_mod, sub_mod, neg_mod, mul_mod, inv_mod}
use phantom_fhe.Ring.Reduce.Range.{mul_mod-lt, mul_mod_lem, add_mod-lt, add_mod_lem}
use phantom_fhe.Ring.Reduce.Power.{mul_mod-inv_mod}
use phantom_fhe.Ring.Rns.Residues.{inverted-term}
use phantom_fhe.Ring.Rns.Rescale.{switch_correction, switch_residue}

sub_mod-back :
    (a b m : ℕ) → IsU64 m → a < m → b < m → (sub_mod a b m < m) × ((sub_mod a b m + b) % m ≡ a)
unfolding sub_mod
sub_mod-back a b m fits h k = ground (arith, mod-eq_small a m h, Nat.add-mod_left m a)

-- For residues modulo a word q, and a P that satisfies the equation of Fermat's little theorem
-- modulo q: what `mod_down` stores, times P, plus the part that is left out, is the residue.
pub mod_down_lem :
    (x part big_p q : ℕ)
    → 1 < q
    → IsU64 q
    → x < q
    → (big_p % q) ^ (q - 1) % q ≡ 1
    → (mul_mod (sub_mod x (part % q) q) (inv_mod (big_p % q) q) q * big_p + part) % q ≡ x
mod_down_lem x part big_p q large fits h fermat =
    let p = part % q in
    let p_lt : p < q = Nat.mod-lt part (omega (arith, large)) in
    let (small, back) = sub_mod-back x p q fits h p_lt in
    let one = mul_mod-inv_mod q large fits (big_p % q) fermat in
    let cell = mul_mod (sub_mod x p q) (inv_mod (big_p % q) q) q in
    let divided =
      inverted-term (sub_mod x p q) (inv_mod (big_p % q) q) big_p q (omega (arith, large)) fits one
        small in
    Nat.add-mod (cell * big_p) part q ∙ ap (λ (r : ℕ). (r + p) % q) divided ∙ back

neg_mod-cancel : (a m : ℕ) → IsU64 m → a < m → (neg_mod a m < m) × ((a + neg_mod a m) % m ≡ 0)
unfolding neg_mod
neg_mod-cancel a m fits h = ground (arith, h, Nat.mod_self m, mod-eq_small (m - a) m)

pub record IsCorrection (q_last t c_qlast c_t correction : ℕ) : Type 0 where
  pub divisible : (c_qlast + correction) % q_last ≡ 0
  pub preserving : correction % t ≡ c_t * (q_last - 1) % t
  pub bounded : correction < q_last * t

-- For a word t above 1 and a last modulus that is a word, satisfies the equation of Fermat's little
-- theorem modulo t, and is above the last residue: the correction makes the coefficient divisible
-- by the last modulus, is (q - 1) times the coefficient modulo t, and is below q * t.
pub switch_correction_lem :
    (q_last t c_qlast c_t : ℕ)
    → 1 < t
    → IsU64 t
    → IsU64 q_last
    → c_qlast < q_last
    → (q_last % t) ^ (t - 1) % t ≡ 1
    → IsCorrection q_last t c_qlast c_t (switch_correction q_last t c_qlast c_t)
unfolding switch_correction
switch_correction_lem q_last t c_qlast c_t large fits fits_q h fermat =
    let pos : 0 < t = omega (arith, large) in
    let a1 = neg_mod c_qlast q_last in
    let (a1_lt, cancel) = neg_mod-cancel c_qlast q_last fits_q h in
    let target = mul_mod c_t ((q_last - 1) % t) t in
    let target_lt : target < t = mul_mod-lt t pos fits c_t ((q_last - 1) % t) in
    let inverse = inv_mod (q_last % t) t in
    let (small, back) = sub_mod-back target (a1 % t) t fits target_lt (Nat.mod-lt a1 pos) in
    let difference = sub_mod target (a1 % t) t in
    let k = mul_mod difference inverse t in
    let k_lt : k < t = mul_mod-lt t pos fits difference inverse in
    let one = mul_mod-inv_mod t large fits (q_last % t) fermat in
    let divided = inverted-term difference inverse q_last t pos fits one small in
    let product : q_last * k ≤ q_last * (t - 1) =
      Nat.mul-le-mul {n₁ = q_last} {m₁ = k} {n₂ = q_last} {m₂ = t - 1} (omega arith)
        (omega (arith, k_lt)) in
    let whole : q_last * (t - 1) + q_last ≡ q_last * t =
      sym (Nat.mul-suc q_last (t - 1))
      ∙ ap (λ (n : ℕ). q_last * n) {x = suc (t - 1)} {y = t} (omega (arith, large)) in
    let plain : u128 (a1 + u128 (q_last * k)) ≡ a1 + q_last * k =
      let room =
        word-mul_fits q_last k a1 0 fits_q (omega (arith, k_lt, fits))
          (omega (arith, a1_lt, fits_q)) (omega arith) in
      ap (λ (n : ℕ). u128 (a1 + n)) (mod-eq_small (q_last * k) u128_mod (omega (arith, room)))
      ∙ mod-eq_small (a1 + q_last * k) u128_mod (omega (arith, room)) in
    rw plain (record {
      divisible =
          ap (λ (n : ℕ). n % q_last) (sym (Nat.add_assoc c_qlast a1 (q_last * k)))
          ∙ Nat.add-mul-mod_self_left (c_qlast + a1) q_last k
          ∙ cancel;
      preserving =
          ap (λ (n : ℕ). n % t) {y = k * q_last + a1} (grind arith)
          ∙ Nat.add-mod (k * q_last) a1 t
          ∙ ap (λ (n : ℕ). (n + a1 % t) % t) divided
          ∙ back
          ∙ mul_mod_lem t pos fits c_t ((q_last - 1) % t)
          ∙ mul-mod-mod c_t (q_last - 1) t;
      bounded = omega (arith, a1_lt, product, whole);
    })

-- For a word q above 1 modulo which the last modulus satisfies the equation of Fermat's little
-- theorem, what is stored for q, times the last modulus, is the corrected coefficient modulo q.
pub switch_residue_lem :
    (q_last correction q c_q : ℕ)
    → 1 < q
    → IsU64 q
    → (q_last % q) ^ (q - 1) % q ≡ 1
    → (switch_residue q_last correction q c_q < q)
      × (switch_residue q_last correction q c_q * q_last % q ≡ (c_q + correction) % q)
unfolding switch_residue
switch_residue_lem q_last correction q c_q large fits fermat =
    let pos : 0 < q = omega (arith, large) in
    let one = mul_mod-inv_mod q large fits (q_last % q) fermat in
    let word : u64 (correction % q) ≡ correction % q =
      mod-eq_small (correction % q) u64_mod (omega (arith, Nat.mod-lt correction pos, fits)) in
    let sum = add_mod c_q (u64 (correction % q)) q in
    (
      mul_mod-lt q pos fits sum (inv_mod (q_last % q) q),
      inverted-term sum (inv_mod (q_last % q) q) q_last q pos fits one
            (add_mod-lt q pos fits c_q (u64 (correction % q)))
          ∙ add_mod_lem q pos fits c_q (u64 (correction % q))
          ∙ ap (λ (n : ℕ). (c_q + n) % q) word
          ∙ Nat.add-mod-mod c_q correction q,
    )
