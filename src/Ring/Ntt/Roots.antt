-- ===== src/Ring/Ntt/Roots.antt =====
-- The table holds the powers of the root, and the root has the order that the transform needs.
use native.Mathlib.Nat
use phantom_fhe.Base.{
  ℕ, zero, suc, ◌+◌, ◌*◌, ◌/◌, ◌%◌, ◌^◌, ◌<◌, ◌≡◌, ◌≢◌, refl, sym, ap, ◌∙◌, true, Option, none,
  some, ok, arith, IsU64, get_or, length, Bool-cases, inl, inr, subst, false, ok_or, ◌⊎◌,
}
use phantom_fhe.Base.Residues.{mod-mul-mod}
use phantom_fhe.Ring.Error.{RingError}
use phantom_fhe.Ring.Reduce.{mul_mod, pow_mod}
use phantom_fhe.Ring.Reduce.Range.{mul_mod_lem}
use phantom_fhe.Ring.Reduce.Power.{pow_mod_lem}
use phantom_fhe.Ring.Ntt.{
  power_table_from, power_table, is_primitive, search_root, or_else, primitive_root_of_order,
}

module _ (m : ℕ) (large : 1 < m) (fits : IsU64 m) where
  power_table_from_lem :
      (current root count i : ℕ)
      → current < m
      → i < count
      → get_or (power_table_from current root count m) i 0 ≡ current * root ^ i % m
  unfolding power_table_from
  power_table_from_lem current root zero i h k = absurd (omega arith)
  power_table_from_lem current root (suc count) zero h k =
      rw (Nat.pow-zero root, Nat.mul-one current) (sym (Nat.mod-eq_of_lt h))
  power_table_from_lem current root (suc count) (suc i) h k =
      rw (mul_mod_lem m (omega arith) fits current root) (
        power_table_from_lem (current * root % m) root count i (Nat.mod-lt _ (omega arith))
          (omega arith)
        ∙ mod-mul-mod (current * root) (root ^ i) m
        ∙ ap (λ (t : ℕ). t % m)
            (Nat.mul_assoc current root (root ^ i)
              ∙ ap (λ (t : ℕ). current * t) (sym (Nat.pow-succ' root i))))

  length-power_table_from :
      (current root count : ℕ) → length (power_table_from current root count m) ≡ count
  unfolding power_table_from
  length-power_table_from current root zero = refl
  length-power_table_from current root (suc count) =
      ap suc (length-power_table_from (mul_mod current root m) root count)

  -- For a word modulus above 1 the table of running products has `count` entries, and the entry of
  -- each index below `count` is what `pow_mod` gives for it.
  pub power_table-pow_mod :
      (root count i : ℕ)
      → i < count
      → (length (power_table root count m) ≡ count)
        × (get_or (power_table root count m) i 0 ≡ pow_mod root i m)
  unfolding power_table
  power_table-pow_mod root count i h = (
    length-power_table_from 1 root count,
    power_table_from_lem 1 root count i large h
        ∙ ap (λ (t : ℕ). t % m) (Nat.one-mul (root ^ i))
        ∙ sym (pow_mod_lem m large fits root i),
  )

  abbrev HasOrder : ℕ → ℕ → Type 0
  HasOrder order h = (h ^ order % m ≡ 1) × (h ^ (order / 2) % m ≢ 1)

  is_primitive_sound : (order h : ℕ) → is_primitive order m h ≡ true → HasOrder order h
  unfolding is_primitive
  is_primitive_sound order h t =
      rw (← pow_mod_lem m large fits h order, ← pow_mod_lem m large fits h (order / 2))
        (ground arith)

  search_root_sound :
      (root_of : ℕ → ℕ) (order rounds c : ℕ) {h : ℕ}
      → search_root root_of order m rounds c ≡ some h
      → HasOrder order h
  unfolding search_root
  search_root_sound root_of order zero c e = absurd (ground arith)
  search_root_sound root_of order (suc rounds) c {h} e =
      elim (Bool-cases (is_primitive order m (root_of c))) [
        | inl found ↦
            subst (HasOrder order) (found_root found) (is_primitive_sound order (root_of c) found)
        | inr missed ↦ search_root_sound root_of order rounds (c + 1) (skipped missed)
      ]
    where
      found_root : is_primitive order m (root_of c) ≡ true → root_of c ≡ h
      found_root found = ground arith

      skipped :
          is_primitive order m (root_of c) ≡ false
          → search_root root_of order m rounds (c + 1) ≡ some h
      skipped missed = ground arith

  or_else-some :
      (o p : Option ℕ) {h : ℕ} (e : RingError)
      → ok_or (or_else o p) e ≡ ok h
      → (o ≡ some h) ⊎ (p ≡ some h)
  unfolding or_else
  or_else-some none none e eq = absurd (ground arith)
  or_else-some none (some b) e eq = inr (ground arith)
  or_else-some (some a) p e eq = inl (ground arith)

  -- For a word modulus above 1, a root that is found has power 1 at the order, and not at half the
  -- order.
  pub primitive_root_of_order_sound :
      (order : ℕ) {h : ℕ} → primitive_root_of_order order m ≡ ok h → HasOrder order h
  unfolding primitive_root_of_order
  primitive_root_of_order_sound order eq = elim (or_else-some _ _ _ eq) [
    | inl first ↦ search_root_sound _ order _ _ first
    | inr second ↦ search_root_sound _ order _ _ second
  ]
