-- ===== src/Utils/Buffer.antt =====
-- crates/phantom-utils/src/buffer: the little-endian reader and writer.
pub mod RoundTrip
use phantom_fhe.Base.{
  ℕ, ◌^◌, List, [], ◌++◌, ◌∷◌, Result, ok, err, panic, ◌>>=◌, if◌then◌else◌, ltb, leb, length, take,
  drop, u64, get_or,
}
use phantom_fhe.Base.Bytes.{to_le_bytes, from_le_bytes}
use phantom_fhe.Utils.Error.{UtilsError, io, length_overflow}

pub record BufferReader : Type 0 where
  pub inner : List ℕ

-- `Read::read_exact` of a byte slice.
unfoldable pub read_exact : ℕ → BufferReader → Result UtilsError (List ℕ × BufferReader)
read_exact n reader =
    if ltb (length reader.inner) n
    then err io
    else ok (take n reader.inner, record { inner = drop n reader.inner })

unfoldable pub read_u8 : BufferReader → Result UtilsError (ℕ × BufferReader)
read_u8 reader = do (buf, rest) ← read_exact 1 reader; ok (get_or buf 0 0, rest)

-- `read_u16_le`, `read_u32_le` and `read_u64_le` at their widths in bytes.
unfoldable pub read_le : ℕ → BufferReader → Result UtilsError (ℕ × BufferReader)
read_le width reader = do (buf, rest) ← read_exact width reader; ok (from_le_bytes buf, rest)

unfoldable pub read_array : ℕ → BufferReader → Result UtilsError (List ℕ × BufferReader)
read_array n reader = read_exact n reader

-- `usize::try_from` on a 64-bit target.
unfoldable pub usize_try_from : ℕ → Result UtilsError ℕ
usize_try_from len = if ltb len (2 ^ 64) then ok len else err (length_overflow len)

-- `vec![0u8; len]` panics above `isize::MAX` bytes.
unfoldable pub read_bytes : BufferReader → Result UtilsError (List ℕ × BufferReader)
read_bytes reader = do
  (len, rest) ← read_le 8 reader
  size ← usize_try_from len
  if leb (2 ^ 63) size then panic else read_exact size rest

pub record BufferWriter : Type 0 where
  pub output : List ℕ

-- Writing to a vector never fails.
unfoldable pub write_all : List ℕ → BufferWriter → Result UtilsError BufferWriter
write_all bytes writer = ok record { output = writer.output ++ bytes }

unfoldable pub write_u8 : ℕ → BufferWriter → Result UtilsError BufferWriter
write_u8 value writer = write_all (value ∷ []) writer

-- `write_u16_le`, `write_u32_le` and `write_u64_le` at their widths in bytes.
unfoldable pub write_le : ℕ → ℕ → BufferWriter → Result UtilsError BufferWriter
write_le width value writer = write_all (to_le_bytes width value) writer

unfoldable pub write_bytes : List ℕ → BufferWriter → Result UtilsError BufferWriter
write_bytes bytes writer = do next ← write_le 8 (u64 (length bytes)) writer; write_all bytes next
