-- ===== src/Ring/Reduce/Range.antt =====
-- What the operations on residues compute, as remainders, and that the results are residues.
use native.Mathlib.Nat
use phantom_fhe.Base.{ℕ, ◌+◌, ◌-◌, ◌*◌, ◌%◌, ◌<◌, ◌≡◌, ◌∙◌, IsU64, u64_mod, arith}
use phantom_fhe.Base.Residues.{mod-eq_small, mod-sub}
use phantom_fhe.Ring.Reduce.{add_mod, sub_mod, neg_mod, mul_mod}

module _ (m : ℕ) (pos : 0 < m) (fits : IsU64 m) where
  u64-mod : (a : ℕ) → a % m % u64_mod ≡ a % m
  u64-mod a = Nat.mod-eq_of_lt (grind (arith, Nat.mod-lt a pos))

  pub add_mod_lem : (a b : ℕ) → add_mod a b m ≡ (a + b) % m
  unfolding add_mod
  add_mod_lem a b = u64-mod (a + b)

  pub mul_mod_lem : (a b : ℕ) → mul_mod a b m ≡ a * b % m
  unfolding mul_mod
  mul_mod_lem a b = u64-mod (a * b)

  pub sub_mod_lem : (a b : ℕ) → a < m → b < m → sub_mod a b m ≡ (a + (m - b)) % m
  unfolding sub_mod
  sub_mod_lem a b ha hb = grind arith

  pub neg_mod_lem : (a : ℕ) → a < m → neg_mod a m ≡ (m - a) % m
  unfolding neg_mod
  neg_mod_lem a ha = ground (arith, Nat.mod_self m, mod-eq_small (m - a) m)

  pub add_mod-lt : (a b : ℕ) → add_mod a b m < m
  add_mod-lt a b = grind (arith, add_mod_lem a b, Nat.mod-lt (a + b) pos)

  pub mul_mod-lt : (a b : ℕ) → mul_mod a b m < m
  mul_mod-lt a b = grind (arith, mul_mod_lem a b, Nat.mod-lt (a * b) pos)

  pub sub_mod-lt : (a b : ℕ) → a < m → b < m → sub_mod a b m < m
  sub_mod-lt a b ha hb = grind (arith, sub_mod_lem a b ha hb, Nat.mod-lt (a + (m - b)) pos)

  pub neg_mod-lt : (a : ℕ) → a < m → neg_mod a m < m
  neg_mod-lt a ha = grind (arith, neg_mod_lem a ha, Nat.mod-lt (m - a) pos)

  -- For residues of a positive word modulus, subtraction undoes addition.
  pub sub_mod-add_mod : (a b : ℕ) → a < m → b < m → sub_mod (add_mod a b m) b m ≡ a
  sub_mod-add_mod a b ha hb =
      sub_mod_lem (add_mod a b m) b (add_mod-lt a b) hb
      ∙ ground (
        arith,
        add_mod_lem a b,
        mod-eq_small (a + b) m,
        mod-sub (a + b) m,
        mod-eq_small (add_mod a b m + (m - b)) m,
        mod-sub (add_mod a b m + (m - b)) m,
      )

  -- For a residue of a positive word modulus, it and its negation add up to 0.
  pub add_mod-neg_mod : (a : ℕ) → a < m → add_mod a (neg_mod a m) m ≡ 0
  add_mod-neg_mod a ha = ground (
    arith,
    add_mod_lem a (neg_mod a m),
    neg_mod_lem a ha,
    Nat.mod_self m,
    mod-eq_small (m - a) m,
    Nat.zero-mod m,
  )
