-- ===== src/Multiparty/Masking.antt =====
-- crates/phantom-multiparty/src/common/masking.rs. The words that `rng.next_u64()` gives one after
-- the other are a list, which is a parameter. A run that needs more of them is `none`, as is the
-- panic of the remainder by 0.
pub mod Uniform
use phantom_fhe.Base.{
  ℕ, zero, suc, ◌-◌, ◌%◌, List, [], ◌∷◌, Option, none, some, ltb, ◌==◌, if◌then◌else◌, u64_mod,
}

unfoldable pub zone : ℕ → ℕ
zone t = u64_mod - 1 - (u64_mod - 1) % t

-- The loop of one sample: the value and the words that are left.
unfoldable pub sample_one : ℕ → List ℕ → Option (ℕ × List ℕ)
sample_one t [] = none
sample_one t (value ∷ words) =
    let next = sample_one t words in if ltb value (zone t) then some (value % t, words) else next

unfoldable pub samples : ℕ → ℕ → List ℕ → Option (List ℕ)
samples t zero words = some []
samples t (suc count) words = elim (sample_one t words) [
  | none ↦ none
  | some (value, rest) ↦ elim (samples t count rest) [
    | none ↦ none
    | some values ↦ some (value ∷ values)
  ]
]

unfoldable pub sample_uniform_mod_t : ℕ → ℕ → List ℕ → Option (List ℕ)
sample_uniform_mod_t t count words = if t == 0 then none else samples t count words
