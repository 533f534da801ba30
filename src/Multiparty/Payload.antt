-- ===== src/Multiparty/Payload.antt =====
-- crates/phantom-multiparty/src/common/shares.rs: sums of `u64` vectors.
pub mod Sums
use phantom_fhe.Base.{
  ℕ, zero, suc, ◌+◌, ◌/◌, ◌%◌, List, [], ◌∷◌, Bool, not, ◌==◌, leb, if◌then◌else◌, Result, ok, err,
  ◌>>=◌, ◌>>◌, guard, index, length, take, drop, replicate, u64, u128,
}
use phantom_fhe.Base.Bytes.{from_le_bytes}
use phantom_fhe.Multiparty.Error.{
  MultipartyError, invalid_parameters, missing_share, malformed_message,
}
use phantom_fhe.Multiparty.Share.{Share}

-- `chunks_exact(8)` and `from_le_bytes` on each.
unfoldable pub chunks_exact : ℕ → List ℕ → List ℕ
chunks_exact zero payload = []
chunks_exact (suc n) payload = from_le_bytes (take 8 payload) ∷ chunks_exact n (drop 8 payload)

unfoldable pub decode_u64_payload : List ℕ → Result MultipartyError (List ℕ)
decode_u64_payload payload = do
  guard (length payload % 8 == 0) malformed_message
  ok (chunks_exact (length payload / 8) payload)

unfoldable pub accumulate_row : List ℕ → List ℕ → ℕ → List ℕ
accumulate_row [] values modulus = []
accumulate_row (acc ∷ accs) [] modulus = acc ∷ accs
accumulate_row (acc ∷ accs) (value ∷ values) modulus =
    u64 (u128 (acc + value % modulus) % modulus) ∷ accumulate_row accs values modulus

unfoldable pub accumulate_shares : List ℕ → List Share → ℕ → Result MultipartyError (List ℕ)
accumulate_shares acc [] modulus = ok acc
accumulate_shares acc (share ∷ shares) modulus = do
  values ← decode_u64_payload share.payload
  guard (length values == length acc) malformed_message
  accumulate_shares (accumulate_row acc values modulus) shares modulus

unfoldable pub aggregate_u64_shares_mod : List Share → ℕ → Result MultipartyError (List ℕ)
aggregate_u64_shares_mod shares modulus = do
  guard (not (leb modulus 1)) invalid_parameters
  guard (not (length shares == 0)) missing_share
  head ← index shares 0
  first ← decode_u64_payload head.payload
  accumulate_shares (replicate (length first) 0) shares modulus
