-- ===== src/Multiparty/Vss/Recovery.antt =====
-- A centered integer is recovered from its scalar.
use native.Mathlib.Nat
use phantom_fhe.Base.{
  ℕ, zero, suc, ◌+◌, ◌-◌, ◌/◌, ◌%◌, ◌^◌, ◌≤◌, ◌<◌, ◌≡◌, refl, ap, ◌∙◌, ◌∷◌, some, none, true, false,
  leb, ltb, if◌then◌else◌, Bool-cases, inl, inr, ok, err, take, drop, arith, ◌==◌,
}
use phantom_fhe.Base.Bytes.{to_le_bytes, from_le_bytes, from_le_bytes-to_le_bytes}
use phantom_fhe.Base.Signed.{ℤ, pos, negsuc, nat_abs}
use phantom_fhe.Multiparty.Error.{invalid_parameters}
use phantom_fhe.Multiparty.Vss.{Curve}
use phantom_fhe.Multiparty.Vss.Embed.{
  any_nonzero, signed_scalar, embed_centered, small_magnitude, magnitude_within, recover_within,
  recover_centered, to_bound,
}
use phantom_fhe.Multiparty.Vss.Sampling.{HasMagnitude, embed_centered_lem}

-- The order of the group, which curve25519_dalek documents.
abbrev pub group_order : ℕ
group_order = 2 ^ 252 + 27742317777372353535851937790883648493

-- Scalars are the numbers below the group's order, in 32 little-endian bytes.
pub record ScalarBytes (c : Curve) : Type 0 where
  pub bytes_from : (k : ℕ) → k < 2 ^ 128 → c.as_bytes (c.scalar_from k) ≡ to_le_bytes 32 k
  pub bytes_negate :
      (k : ℕ)
      → 0 < k
      → k < 2 ^ 128
      → c.as_bytes (c.negate (c.scalar_from k)) ≡ to_le_bytes 32 (group_order - k)
  pub negate_negate :
      (k : ℕ) → k < 2 ^ 128 → c.negate (c.negate (c.scalar_from k)) ≡ c.scalar_from k

drop-to_le_bytes : (m n x : ℕ) → drop m (to_le_bytes (m + n) x) ≡ to_le_bytes n (x / 256 ^ m)
drop-to_le_bytes zero n x = rw (Nat.zero-add n, Nat.pow-zero 256, Nat.div-one x) refl
drop-to_le_bytes (suc m) n x =
    rw
      (
        Nat.suc-add m n,
        drop-to_le_bytes m n (x / 256),
        Nat.div-div-eq-div-mul x 256 (256 ^ m),
        Nat.pow-succ' 256 m,
      )
      refl

take-to_le_bytes : (m n x : ℕ) → take m (to_le_bytes (m + n) x) ≡ to_le_bytes m x
take-to_le_bytes zero n x = refl
take-to_le_bytes (suc m) n x =
    rw (Nat.suc-add m n) (ap (◌∷◌ (x % 256)) (take-to_le_bytes m n (x / 256)))

any_nonzero-zero : (n : ℕ) → any_nonzero (to_le_bytes n 0) ≡ false
unfolding any_nonzero
any_nonzero-zero zero = refl
any_nonzero-zero (suc n) = any_nonzero-zero n

any_nonzero-pos : (n x : ℕ) → 0 < x → x < 256 ^ n → any_nonzero (to_le_bytes n x) ≡ true
unfolding any_nonzero
any_nonzero-pos zero x h k = absurd (omega (arith, Nat.pow-zero 256))
any_nonzero-pos (suc n) x h k = elim (Bool-cases (x % 256 == 0)) [
  | inl e ↦
      rw e (any_nonzero-pos n (x / 256) (ground (arith, e)) (omega (arith, Nat.pow-succ' 256 n)))
  | inr e ↦ rw e refl
]

module _ (c : Curve) (laws : ScalarBytes c) where
  open c use {Scalar, scalar_from, negate, as_bytes}

  small_magnitude-fits :
      (s : Scalar) (k : ℕ)
      → k < 2 ^ 128
      → as_bytes s ≡ to_le_bytes 32 k
      → small_magnitude c s ≡ some k
  unfolding small_magnitude
  small_magnitude-fits s k h e =
      let low : take 16 (to_le_bytes 32 k) ≡ to_le_bytes 16 k = take-to_le_bytes 16 16 k in
      let high : drop 16 (to_le_bytes 32 k) ≡ to_le_bytes 16 0 =
        drop-to_le_bytes 16 16 k
        ∙ ap (to_le_bytes 16) (Nat.div-eq_of_lt {n = k} {m = 256 ^ 16} (omega arith)) in
      rw (e, high, any_nonzero-zero 16)
        (ap some (ap from_le_bytes low ∙ from_le_bytes-to_le_bytes 16 k (omega arith)))

  small_magnitude-big :
      (s : Scalar) (n : ℕ)
      → 2 ^ 128 ≤ n
      → n < 2 ^ 256
      → as_bytes s ≡ to_le_bytes 32 n
      → small_magnitude c s ≡ none
  unfolding small_magnitude
  small_magnitude-big s n h k e =
      let high : drop 16 (to_le_bytes 32 n) ≡ to_le_bytes 16 (n / 256 ^ 16) =
        drop-to_le_bytes 16 16 n in
      rw (e, high, any_nonzero-pos 16 (n / 256 ^ 16) (omega arith) (omega arith)) refl

  magnitude_within-fits :
      (s : Scalar) (k b : ℕ)
      → k < 2 ^ 128
      → as_bytes s ≡ to_le_bytes 32 k
      → magnitude_within c s b ≡ (if leb k b then some k else none)
  unfolding magnitude_within
  magnitude_within-fits s k b h e = rw (small_magnitude-fits s k h e, magnitude_within) refl

  magnitude_within-big :
      (s : Scalar) (n b : ℕ)
      → 2 ^ 128 ≤ n
      → n < 2 ^ 256
      → as_bytes s ≡ to_le_bytes 32 n
      → magnitude_within c s b ≡ none
  unfolding magnitude_within
  magnitude_within-big s n b h k e = rw (small_magnitude-big s n h k e, magnitude_within) refl

  -- The two looks at the scalar of a number and at that of its opposite.
  look_positive :
      (k b : ℕ)
      → k < 2 ^ 127
      → magnitude_within c (scalar_from k) b ≡ (if leb k b then some k else none)
  look_positive k b h =
      magnitude_within-fits (scalar_from k) k b (omega arith) (laws.bytes_from k (omega arith))

  look_negative :
      (k b : ℕ) → k < 2 ^ 127 → 0 < k → magnitude_within c (negate (scalar_from k)) b ≡ none
  look_negative k b h pos_k =
      magnitude_within-big (negate (scalar_from k)) (group_order - k) b (omega arith) (omega arith)
        (laws.bytes_negate k pos_k (omega arith))

  look_back :
      (k b : ℕ)
      → k < 2 ^ 127
      → magnitude_within c (negate (negate (scalar_from k))) b ≡ (if leb k b then some k else none)
  look_back k b h = rw (laws.negate_negate k (omega arith)) (look_positive k b h)

  recover_signed :
      (v : ℤ) (b : ℕ)
      → HasMagnitude v
      → recover_within c (signed_scalar c v (nat_abs v)) b
        ≡ (if leb (nat_abs v) b then ok v else err invalid_parameters)
  unfolding recover_within signed_scalar
  recover_signed (pos zero) b h =
      let fits : leb 0 b ≡ true = ground arith in
      rw (look_positive 0 b h, recover_within, signed_scalar, fits) refl
  recover_signed (pos (suc k)) b h =
      let word : ltb (suc k) (2 ^ 127) ≡ true = ground arith in
      elim (Bool-cases (leb (suc k) b)) [
        | inl e ↦ rw (look_positive (suc k) b h, recover_within, signed_scalar, e, word) refl
        | inr e ↦
            rw
              (
                look_positive (suc k) b h,
                recover_within,
                signed_scalar,
                e,
                look_negative (suc k) b h (omega arith),
              )
              refl
      ]
  recover_signed (negsuc k) b h =
      let word : ltb (suc k) (2 ^ 127) ≡ true = ground arith in
      elim (Bool-cases (leb (suc k) b)) [
        | inl e ↦
            rw
              (
                look_negative (suc k) b h (omega arith),
                recover_within,
                signed_scalar,
                look_back (suc k) b h,
                e,
                word,
              )
              refl
        | inr e ↦
            rw
              (
                look_negative (suc k) b h (omega arith),
                recover_within,
                signed_scalar,
                look_back (suc k) b h,
                e,
              )
              refl
      ]

  -- For a value that is not `i128::MIN` and a bound that is not negative, the embedding succeeds,
  -- and the recovery gives the value back if its magnitude is within the bound, and an error
  -- otherwise.
  pub recover_centered-embed_centered :
      (v : ℤ) (b : ℕ)
      → HasMagnitude v
      → (s : Scalar) × (embed_centered c v ≡ ok s)
        × (recover_centered c s (pos b)
            ≡ (if leb (nat_abs v) b then ok v else err invalid_parameters))
  unfolding recover_centered to_bound
  recover_centered-embed_centered v b h =
      (signed_scalar c v (nat_abs v), embed_centered_lem c v h, recover_signed v b h)
