-- ===== src/Multiparty/Payload/Sums.antt =====
-- The aggregate of shares is the sum of their vectors, entry by entry, modulo the modulus.
use native.Mathlib.Nat
use phantom_fhe.Base.{
  ℕ, zero, suc, ◌+◌, ◌*◌, ◌/◌, ◌%◌, ◌<◌, ◌≡◌, refl, sym, ap, subst, ◌∙◌, List, [], ◌∷◌, ◌++◌, true,
  false, ◌==◌, leb, ok, err, panic, length, get_or, replicate, All, u64, u128, u64_mod, u128_mod,
  IsU64, length-append, length-replicate, arith,
}
use phantom_fhe.Base.Bytes.{to_le_bytes, length-to_le_bytes, from_le_bytes-to_le_bytes}
use phantom_fhe.Base.Residues.{mod-eq_small}
use phantom_fhe.Multiparty.Share.{Share}
use phantom_fhe.Multiparty.Payload.{
  chunks_exact, decode_u64_payload, accumulate_row, accumulate_shares, aggregate_u64_shares_mod,
}

-- The payload of a vector: its words one after the other.
abbrev pub encode_u64s : List ℕ → List ℕ
encode_u64s [] = []
encode_u64s (value ∷ values) = to_le_bytes 8 value ++ encode_u64s values

length-encode_u64s : (values : List ℕ) → length (encode_u64s values) ≡ 8 * length values
length-encode_u64s [] = refl
length-encode_u64s (value ∷ values) = omega (
  arith,
  length-append (to_le_bytes 8 value) (encode_u64s values),
  length-to_le_bytes 8 value,
  length-encode_u64s values,
)

chunks_exact-encode_u64s :
    (values : List ℕ)
    → All IsU64 values
    → chunks_exact (length values) (encode_u64s values) ≡ values
unfolding chunks_exact
chunks_exact-encode_u64s [] h = refl
chunks_exact-encode_u64s (value ∷ values) h =
    let word = from_le_bytes-to_le_bytes 8 value (omega (arith, h.0)) in
    rw (word, chunks_exact-encode_u64s values h.1)

-- A vector of words is decoded from its words in little-endian bytes, one after the other.
pub decode_u64_payload-encode_u64s :
    (values : List ℕ) → All IsU64 values → decode_u64_payload (encode_u64s values) ≡ ok values
unfolding decode_u64_payload
decode_u64_payload-encode_u64s values h =
    let size = length-encode_u64s values in
    let whole : (length (encode_u64s values) % 8 == 0) ≡ true = ground (arith, size) in
    let count : length (encode_u64s values) / 8 ≡ length values = omega (arith, size) in
    rw (whole, count) (ap ok (chunks_exact-encode_u64s values h))

-- A share's entry `i`, 0 where its payload is no vector.
abbrev pub entry : Share → ℕ → ℕ
entry share i = elim (decode_u64_payload share.payload) [
  | ok values ↦ get_or values i 0
  | err e ↦ 0
  | panic ↦ 0
]

abbrev pub entry_sum : List Share → ℕ → ℕ
entry_sum [] i = 0
entry_sum (share ∷ shares) i = entry share i + entry_sum shares i

-- The payload is a vector of `n` words.
abbrev pub IsVector : ℕ → Share → Type 0
IsVector n share =
    (values : List ℕ) × (decode_u64_payload share.payload ≡ ok values) × (length values ≡ n)

module _ (modulus : ℕ) (big : 1 < modulus) (word : IsU64 modulus) where
  accumulate_cell :
      (acc value : ℕ)
      → acc < modulus
      → (u64 (u128 (acc + value % modulus) % modulus) ≡ (acc + value) % modulus)
        × (u64 (u128 (acc + value % modulus) % modulus) < modulus)
  accumulate_cell acc value h =
      let small : value % modulus < modulus = Nat.mod-lt value (omega arith) in
      let fits : u128 (acc + value % modulus) ≡ acc + value % modulus =
        mod-eq_small _ u128_mod (omega (arith, small)) in
      let low : (acc + value % modulus) % modulus < modulus = Nat.mod-lt _ (omega arith) in
      let narrow : u64 ((acc + value % modulus) % modulus) ≡ (acc + value % modulus) % modulus =
        mod-eq_small _ u64_mod (omega (arith, low)) in
      (
        ap (λ (t : ℕ). u64 (t % modulus)) fits ∙ narrow ∙ Nat.add-mod-mod acc value modulus,
        rw (fits, narrow) low,
      )

  accumulate_row-bounds :
      (accs values : List ℕ)
      → All (λ a. a < modulus) accs
      → (length (accumulate_row accs values modulus) ≡ length accs)
        × All (λ a. a < modulus) (accumulate_row accs values modulus)
  unfolding accumulate_row
  accumulate_row-bounds [] values h = (refl, tt)
  accumulate_row-bounds (acc ∷ accs) [] h = (refl, h)
  accumulate_row-bounds (acc ∷ accs) (value ∷ values) h =
      let (same, below) = accumulate_row-bounds accs values h.1 in
      (ap suc same, ((accumulate_cell acc value h.0).1, below))

  accumulate_row-get_or :
      (accs values : List ℕ) (i : ℕ)
      → length values ≡ length accs
      → All (λ a. a < modulus) accs
      → i < length accs
      → get_or (accumulate_row accs values modulus) i 0
        ≡ (get_or accs i 0 + get_or values i 0) % modulus
  unfolding accumulate_row
  accumulate_row-get_or [] values i e h l = absurd (omega arith)
  accumulate_row-get_or (acc ∷ accs) [] i e h l = absurd (omega arith)
  accumulate_row-get_or (acc ∷ accs) (value ∷ values) zero e h l = (accumulate_cell acc value h.0).0
  accumulate_row-get_or (acc ∷ accs) (value ∷ values) (suc i) e h l =
      accumulate_row-get_or accs values i (omega arith) h.1 (omega arith)

  All-get : (xs : List ℕ) (i : ℕ) → All (λ a. a < modulus) xs → get_or xs i 0 < modulus
  All-get [] i h = omega arith
  All-get (x ∷ xs) zero h = h.0
  All-get (x ∷ xs) (suc i) h = All-get xs i h.1

  accumulate_shares_lem :
      (acc : List ℕ) (shares : List Share)
      → All (λ a. a < modulus) acc
      → All (IsVector (length acc)) shares
      → (sum : List ℕ) × (accumulate_shares acc shares modulus ≡ ok sum)
        × (length sum ≡ length acc)
        × ((i : ℕ)
            → i < length acc
            → get_or sum i 0 ≡ (get_or acc i 0 + entry_sum shares i) % modulus)
  unfolding accumulate_shares
  accumulate_shares_lem acc [] h v = (
    acc,
    refl,
    refl,
    λ i l.
        sym
          (ap (λ (t : ℕ). t % modulus) (Nat.add-zero _) ∙ mod-eq_small _ modulus (All-get acc i h)),
  )
  accumulate_shares_lem acc (share ∷ shares) h ((values, e, n), v) =
      let (same, below) = accumulate_row-bounds acc values h in
      let row = accumulate_row acc values modulus in
      let (sum, run, size, at) = accumulate_shares_lem row shares below (rw same v) in
      let equal : (length values == length acc) ≡ true = ground (arith, n) in
      (
        sum,
        rw (e, equal) run,
        size ∙ same,
        λ i l.
            let here : entry share i ≡ get_or values i 0 = rw (e, entry) in
            at i (omega (arith, same))
            ∙ ap (λ (t : ℕ). (t + entry_sum shares i) % modulus)
                (accumulate_row-get_or acc values i n h l)
            ∙ Nat.mod-add-mod (get_or acc i 0 + get_or values i 0) modulus (entry_sum shares i)
            ∙ ap (λ (t : ℕ). t % modulus) (omega (arith, here)),
      )

-- For a modulus above 1 that is a word, and at least one share, where all payloads are vectors of
-- n words, the aggregate is a vector of n entries, each the sum of the shares' entries there
-- modulo the modulus.
pub aggregate_u64_shares_mod_lem :
    (modulus n : ℕ) (shares : List Share)
    → 1 < modulus
    → IsU64 modulus
    → 0 < length shares
    → All (IsVector n) shares
    → (sum : List ℕ) × (aggregate_u64_shares_mod shares modulus ≡ ok sum)
      × (length sum ≡ n)
      × ((i : ℕ) → i < n → get_or sum i 0 ≡ entry_sum shares i % modulus)
unfolding aggregate_u64_shares_mod
aggregate_u64_shares_mod_lem modulus n [] big word some_share v = absurd (omega arith)
aggregate_u64_shares_mod_lem modulus n (share ∷ shares) big word some_share v =
    let (first, e, size) = v.0 in
    let wide : leb modulus 1 ≡ false = ground arith in
    let nonempty : (suc (length shares) == 0) ≡ false = ground arith in
    let zeros : List ℕ = replicate (length first) 0 in
    let count : length zeros ≡ n = length-replicate (length first) 0 ∙ size in
    let (sum, run, long, at) =
      accumulate_shares_lem modulus big word zeros (share ∷ shares)
        (replicate-All (length first) (omega arith))
        (subst (λ (k : ℕ). All (IsVector k) (share ∷ shares)) (sym count) v) in
    (
      sum,
      rw (wide, nonempty, e) run,
      long ∙ count,
      λ i l.
          at i (omega (arith, count))
          ∙ ap (λ (t : ℕ). (t + entry_sum (share ∷ shares) i) % modulus)
              (get_or-replicate (length first) i)
          ∙ ap (λ (t : ℕ). t % modulus) (Nat.zero-add _),
    )
  where
    replicate-All : (k : ℕ) → 0 < modulus → All (λ a. a < modulus) (replicate k 0)
    replicate-All zero h = tt
    replicate-All (suc k) h = (h, replicate-All k h)

    get_or-replicate : (k i : ℕ) → get_or {A = ℕ} (replicate k 0) i 0 ≡ 0
    get_or-replicate zero i = refl
    get_or-replicate (suc k) zero = refl
    get_or-replicate (suc k) (suc i) = get_or-replicate k i
