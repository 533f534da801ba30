-- ===== src/Ring/Montgomery/Setup.antt =====
-- `new` precomputes the right constants, so that a reducer it returns multiplies residues.
use native.Mathlib.Nat
use phantom_fhe.Base.{
  ℕ, ◌-◌, ◌*◌, ◌%◌, ◌≤◌, ◌<◌, ◌≡◌, refl, sym, ◌∙◌, u64, u128, u64_mod, u128_mod, IsU64, arith, leb,
  Bool-cases, inl, inr, ok, err, ◌⊎◌, ◌==◌, ◌||◌, true,
}
use phantom_fhe.Base.Residues.{mul-mod}
use phantom_fhe.Ring.Error.{modulus_too_large_for_reducer}
use phantom_fhe.Ring.Reduce.{mul_mod, montgomery_max_modulus}
use phantom_fhe.Ring.Reduce.Range.{mul_mod_lem}
use phantom_fhe.Ring.Montgomery.{MontgomeryReducer, montgomery_new, montgomery_mul}
use phantom_fhe.Ring.Montgomery.Inverse.{neg_inv_lem}
use phantom_fhe.Ring.Montgomery.Redc.{IsMontgomery, montgomery_mul_lem}

square-residue :
    (m : ℕ)
    → 0 < m
    → m < u64_mod
    → u64 (u128 (u64 (u64_mod % m) * u64 (u64_mod % m)) % m) ≡ u128_mod % m
square-residue m pos fits =
    let small : u64_mod % m < m = Nat.mod-lt u64_mod pos in
    let top : u64_mod % m * (u64_mod % m) ≤ (u64_mod - 1) * (u64_mod - 1) =
      Nat.mul-le-mul {n₂ = u64_mod - 1} {m₂ = u64_mod - 1} (omega arith) (omega arith) in
    rw
      (
        Nat.mod-eq_of_lt {n = u64_mod % m} {m = u64_mod} (omega arith),
        Nat.mod-eq_of_lt {n = u64_mod % m * (u64_mod % m)} {m = u128_mod} (omega arith),
        mul-mod u64_mod u64_mod m,
      )
      (Nat.mod-eq_of_lt (omega (arith, Nat.mod-lt u128_mod pos)))

pub montgomery_new-IsMontgomery :
    (m : ℕ)
    → m < montgomery_max_modulus
    → m % 2 ≡ 1
    → (r : MontgomeryReducer) × (montgomery_new m ≡ ok r) × (r.modulus ≡ m) × IsMontgomery r
unfolding montgomery_new
montgomery_new-IsMontgomery m h odd = (
  _,
  ground arith,
  refl,
  record {
    positive = omega arith;
    below = h;
    inverse = (neg_inv_lem m odd).0;
    square = square-residue m (omega arith) (omega arith);
  },
)

-- For a 64-bit modulus and words a and b: the reducer is refused where the modulus is even or from
-- 2 ^ 63 on, and else it is made and its `mul` agrees with the division-based `mul_mod`.
pub montgomery_new-montgomery_mul :
    (m a b : ℕ)
    → IsU64 m
    → IsU64 a
    → IsU64 b
    → (((m % 2 ≡ 0) ⊎ (montgomery_max_modulus ≤ m))
        × (montgomery_new m ≡ err (modulus_too_large_for_reducer m montgomery_max_modulus)))
      ⊎ ((r : MontgomeryReducer) × (montgomery_new m ≡ ok r)
          × (montgomery_mul r a b ≡ mul_mod a b m))
montgomery_new-montgomery_mul m a b fits h k =
    elim (Bool-cases (m % 2 == 0 || leb montgomery_max_modulus m)) [
      | inl bad ↦ inl (ground arith, refused bad)
      | inr good ↦
          let (r, computed, same, is_montgomery) =
            montgomery_new-IsMontgomery m (ground arith) (ground arith) in
          inr (
            r,
            computed,
            montgomery_mul_lem r is_montgomery a b h k
                ∙ (rw same (sym (mul_mod_lem m (ground arith) fits a b))),
          )
    ]
  where
    refused :
        (m % 2 == 0 || leb montgomery_max_modulus m) ≡ true
        → montgomery_new m ≡ err (modulus_too_large_for_reducer m montgomery_max_modulus)
    refused bad = unfold montgomery_new in ground arith
