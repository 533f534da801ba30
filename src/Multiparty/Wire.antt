-- ===== src/Multiparty/Wire.antt =====
-- crates/phantom-multiparty/src/common/transcript.rs: `encode_bytes` and `ByteReader`.
pub mod Reading
use phantom_fhe.Base.{
  ℕ, ◌+◌, ◌^◌, List, ◌++◌, Bool, Option, none, some, ◌==◌, leb, if◌then◌else◌, Result, ok, err,
  ◌>>=◌, ok_or, length, u64,
}
use phantom_fhe.Base.Bytes.{to_le_bytes, from_le_bytes, get_range, bytes_eq}
use phantom_fhe.Multiparty.Error.{MultipartyError, malformed_message}

unfoldable pub encode_bytes : List ℕ → List ℕ
encode_bytes bytes = to_le_bytes 8 (u64 (length bytes)) ++ bytes

pub record ByteReader : Type 0 where
  pub input : List ℕ
  pub offset : ℕ

unfoldable pub reader_new : List ℕ → ByteReader
reader_new input = record { input = input; offset = 0 }

-- The reader `count` bytes further on.
unfoldable pub advance : ByteReader → ℕ → ByteReader
advance reader count = record { input = reader.input; offset = reader.offset + count }

unfoldable pub expect : ByteReader → List ℕ → Result MultipartyError ByteReader
expect reader expected =
    elim (get_range reader.input reader.offset (u64 (reader.offset + length expected))) [
      | none ↦ err malformed_message
      | some found ↦
          if bytes_eq found expected
          then ok (advance reader (length expected))
          else err malformed_message
    ]

-- `usize::checked_add`
unfoldable pub checked_add : ℕ → ℕ → Option ℕ
checked_add a b = if leb (2 ^ 64) (a + b) then none else some (a + b)

unfoldable pub take_bytes : ByteReader → ℕ → Result MultipartyError (List ℕ × ByteReader)
take_bytes reader len = do
  stop ← ok_or (checked_add reader.offset len) malformed_message
  bytes ← ok_or (get_range reader.input reader.offset stop) malformed_message
  ok (bytes, record { input = reader.input; offset = stop })

unfoldable pub read_u32 : ByteReader → Result MultipartyError (ℕ × ByteReader)
read_u32 reader = do (bytes, next) ← take_bytes reader 4; ok (from_le_bytes bytes, next)

unfoldable pub read_u64 : ByteReader → Result MultipartyError (ℕ × ByteReader)
read_u64 reader = do (bytes, next) ← take_bytes reader 8; ok (from_le_bytes bytes, next)

unfoldable pub read_framed : ByteReader → Result MultipartyError (List ℕ × ByteReader)
read_framed reader = do (len, next) ← read_u64 reader; take_bytes next len

unfoldable pub is_finished : ByteReader → Bool
is_finished reader = reader.offset == length reader.input
