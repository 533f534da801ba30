-- ===== src/Multiparty/Masking/Uniform.antt =====
-- The accepted words are a whole number of residue cycles, so every residue is as likely.
use native.Mathlib.Nat
use native.Mathlib.Nat.{mul-le-mul}
use native.Mathlib.Decide.{dec_lt}
use phantom_fhe.Base.{
  ℕ, zero, suc, ◌+◌, ◌-◌, ◌*◌, ◌/◌, ◌%◌, ◌≤◌, ◌<◌, ◌≡◌, ◌⊎◌, ◌↔◌, inl, inr, refl, List, [], ◌∷◌,
  Option, none, some, ltb, leb, map, take, if◌then◌else◌, false, u64_mod, arith, length, Bool-cases,
  ◌==◌,
}
use phantom_fhe.Base.Residues.{div_unique, mod_unique}
use phantom_fhe.Multiparty.Masking.{zone, sample_one, samples, sample_uniform_mod_t}

zone_whole : (t : ℕ) → zone t ≡ (u64_mod - 1) / t * t
unfolding zone
zone_whole t = grind (arith, Nat.div-add-mod (u64_mod - 1) t)

quotient_iff : (t r q k : ℕ) → r < t → (q * t + r < k * t) ↔ (q < k)
quotient_iff t r q k small = (lower, upper)
  where
    upper : q < k → q * t + r < k * t
    upper h =
        let top : suc q * t ≤ k * t = mul-le-mul {n₂ = k} {m₂ = t} (omega arith) (omega arith) in
        grind (arith, top, Nat.suc-mul q t)

    lower : q * t + r < k * t → q < k
    lower h = elim (dec_lt q k) [
      | yes l ↦ l
      | no n ↦
          let top : k * t ≤ q * t = mul-le-mul {n₂ = q} {m₂ = t} (omega arith) (omega arith) in
          absurd (omega arith)
    ]

-- How often all residues of `t` fit below `u64::MAX`.
abbrev pub cycles : ℕ → ℕ
cycles t = (u64_mod - 1) / t

-- A word lies in the zone just where its quotient is one of a whole cycle.
zone_lem : (t value : ℕ) → 0 < t → ltb value (zone t) ≡ ltb (value / t) (cycles t)
zone_lem t value pos =
    let split : value / t * t + value % t ≡ value =
      rw (Nat.mul_comm (value / t) t) (Nat.div-add-mod value t) in
    let (lower, upper) = quotient_iff t (value % t) (value / t) (cycles t) (Nat.mod-lt value pos) in
    let whole = zone_whole t in
    let left : value < zone t → value / t < cycles t =
      λ h. lower (omega (arith, split, whole, h)) in
    let right : value / t < cycles t → value < zone t = λ h. omega (arith, split, whole, upper h) in
    ground (arith, left, right)

-- The words of whole cycles.
abbrev pub accepted_words : ℕ → List ℕ → List ℕ
accepted_words t [] = []
accepted_words t (value ∷ words) =
    let rest = accepted_words t words in if ltb (value / t) (cycles t) then value ∷ rest else rest

-- One sample ends the words or takes the first accepted one.
sample_one-cases :
    (t : ℕ) (words : List ℕ)
    → 0 < t
    → ((sample_one t words ≡ none) × (accepted_words t words ≡ []))
      ⊎ ((value : ℕ) × (rest : List ℕ) × (sample_one t words ≡ some (value % t, rest))
          × (accepted_words t words ≡ value ∷ accepted_words t rest))
unfolding sample_one
sample_one-cases t [] pos = inl (refl, refl)
sample_one-cases t (value ∷ words) pos =
    rw (zone_lem t value pos) (elim (Bool-cases (ltb (value / t) (cycles t))) [
      | inl e ↦ inr (value, words, rw e refl, rw e refl)
      | inr e ↦ rw e (sample_one-cases t words pos)
    ])

-- The first `count` accepted words, as residues, where there are so many.
abbrev pub first_residues : ℕ → ℕ → List ℕ → Option (List ℕ)
first_residues t count accepted =
    if leb count (length accepted) then some (map (λ v. v % t) (take count accepted)) else none

first_residues-cons :
    (t count value : ℕ) (accepted : List ℕ)
    → (elim (first_residues t count accepted) [
      | none ↦ none
      | some values ↦ some (value % t ∷ values)
    ])
      ≡ first_residues t (suc count) (value ∷ accepted)
first_residues-cons t count value accepted = ground arith

samples_lem :
    (t count : ℕ) (words : List ℕ)
    → 0 < t
    → samples t count words ≡ first_residues t count (accepted_words t words)
unfolding samples
samples_lem t zero words pos = ground arith
samples_lem t (suc count) words pos = elim (sample_one-cases t words pos) [
  | inl (e, f) ↦ rw (e, samples, f) (ground arith)
  | inr (value, rest, e, f) ↦
      rw (e, samples, samples_lem t count rest pos, f)
        (first_residues-cons t count value (accepted_words t rest))
]

-- For a positive t the samples are the residues of the first `count` words whose quotient by t is
-- below that of u64::MAX, where the given words hold so many, and there is no result where they do
-- not. So each residue r below t is given by the words q * t + r for the same quotients q: those
-- below that of u64::MAX, and no other.
pub sample_uniform_mod_t_lem :
    (t count r q : ℕ) (words : List ℕ)
    → 0 < t
    → r < t
    → (sample_uniform_mod_t t count words ≡ first_residues t count (accepted_words t words))
      × (sample_uniform_mod_t t 1 ((q * t + r) ∷ [])
          ≡ (if ltb q ((u64_mod - 1) / t) then some (r ∷ []) else none))
unfolding sample_uniform_mod_t
sample_uniform_mod_t_lem t count r q words pos small =
    let positive : (t == 0) ≡ false = ground arith in
    let quotient = div_unique q r t small in
    let residue = mod_unique q r t small in
    rw positive (
      samples_lem t count words pos,
      rw (samples_lem t 1 ((q * t + r) ∷ []) pos, quotient)
          (elim (Bool-cases (ltb q (cycles t))) [
            | inl e ↦ rw (e, residue) refl
            | inr e ↦ rw e refl
          ]),
    )
