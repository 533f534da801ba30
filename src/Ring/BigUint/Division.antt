-- ===== src/Ring/BigUint/Division.antt =====
-- Long division by a word.
use native.Mathlib.Nat
use phantom_fhe.Base.{
  ℕ, ◌+◌, ◌*◌, ◌/◌, ◌%◌, ◌^◌, ◌<◌, ◌≡◌, refl, ap, List, [], ◌∷◌, ok, u64_mod, IsU64, All, arith,
}
use phantom_fhe.Base.Bits.{bit_or_low}
use phantom_fhe.Ring.BigUint.{BigUint, normalized, divmod_limbs, divmod_u64}
use phantom_fhe.Ring.BigUint.Value.{
  limbs_value, value, IsNormal, normalized-value, normalized-IsNormal,
}

pub record Divides (n d : ℕ) (result : List ℕ × ℕ) : Type 0 where
  pub total : limbs_value result.0 * d + result.1 ≡ n
  pub below : result.1 < d
  pub words : All IsU64 result.0

module _ (d : ℕ) (pos : 0 < d) (fits : IsU64 d) where
  -- One limb: the partial quotient fits a word since the remainder is below the divisor.
  digit-lt : (r x : ℕ) → r < d → IsU64 x → (r * 2 ^ 64 + x) / d < u64_mod
  digit-lt r x h k = (Nat.div-lt_iff_lt-mul pos).1 (grind arith)

  regroup :
      (q r n x c : ℕ)
      → q * d + r ≡ n
      → (r * 2 ^ 64 + x) / d ≡ c
      → (c + u64_mod * q) * d + (r * 2 ^ 64 + x) % d ≡ x + u64_mod * n
  regroup q r n x c e f = omega (
    arith,
    ap (λ (t : ℕ). t * d) f,
    Nat.div-add-mod' (r * 2 ^ 64 + x) d,
    ap (λ (t : ℕ). u64_mod * t) e,
  )

  divmod_limbs-step :
      (x n : ℕ) (xs : List ℕ)
      → IsU64 x
      → Divides n d (divmod_limbs xs d)
      → Divides (x + u64_mod * n) d (divmod_limbs (x ∷ xs) d)
  unfolding divmod_limbs
  divmod_limbs-step x n xs k ih =
      let (q, r) = divmod_limbs xs d in
      rw (bit_or_low 64 r x k, Nat.mod-eq_of_lt (digit-lt r x ih.below k))
        (record {
          total = regroup (limbs_value q) r n x _ ih.total refl;
          below = Nat.mod-lt _ pos;
          words = (digit-lt r x ih.below k, ih.words);
        })

  divmod_limbs_lem : (xs : List ℕ) → All IsU64 xs → Divides (limbs_value xs) d (divmod_limbs xs d)
  divmod_limbs_lem [] h =
      unfold divmod_limbs in record { total = omega arith; below = pos; words = tt }
  divmod_limbs_lem (x ∷ xs) h = divmod_limbs-step x _ xs h.0 (divmod_limbs_lem xs h.1)

  -- For a normal form and a positive word as divisor, the long division returns a quotient in
  -- normal form and a remainder below the divisor that make up the number.
  pub divmod_u64_lem :
      (x : BigUint)
      → IsNormal x
      → (q : BigUint) × (r : ℕ) × (divmod_u64 x d ≡ ok (q, r))
        × (value q * d + r ≡ value x)
        × (r < d)
        × IsNormal q
  unfolding divmod_u64
  divmod_u64_lem x h =
      let (q, r) = divmod_limbs x.limbs d in
      let all = divmod_limbs_lem x.limbs h.words in
      (
        normalized q,
        r,
        ground (arith, Nat.mod-eq_of_lt {n = r} {m = u64_mod} (omega (arith, all.below))),
        rw (normalized-value q) all.total,
        all.below,
        normalized-IsNormal q all.words,
      )
