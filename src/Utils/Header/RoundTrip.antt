-- ===== src/Utils/Header/RoundTrip.antt =====
-- What reading a written header gives, on each of its branches.
use phantom_fhe.Base.{
  ℕ, ◌^◌, ◌<◌, ◌≡◌, refl, List, [], ◌++◌, Result, ok, err, ◌>>=◌, length, arith, append_assoc,
  if◌then◌else◌, ◌==◌, Bool, true, false, guard, ◌>>◌,
}
use phantom_fhe.Base.Bytes.{to_le_bytes, bytes_eq}
use phantom_fhe.Utils.Error.{UtilsError, invalid_domain, unsupported_version}
use phantom_fhe.Utils.Buffer.{BufferReader, write_all, write_le, read_array}
use phantom_fhe.Utils.Buffer.RoundTrip.{read_exact-append, read_le-append}
use phantom_fhe.Utils.Header.{
  DomainTag, SerializationHeader, header_new, from_array, write_to, read_expected,
}

-- A header with an eight-byte tag and a 16-bit version, written on an empty writer, is read back
-- as it is where the reader expects that tag and that version; another tag is refused as an
-- invalid domain, and with the tag right another version as unsupported, both with what was
-- expected and what was found.
pub read_expected-write_to :
    (header : SerializationHeader) (domain : DomainTag) (version : ℕ) (rest : List ℕ)
    → length header.domain.bytes ≡ 8
    → header.version < 2 ^ 16
    → (write_to header record { output = [] } >>= λ writer.
        read_expected record { inner = writer.output ++ rest } domain version)
      ≡ (if bytes_eq header.domain.bytes domain.bytes
          then (if header.version == version
              then ok (header, record { inner = rest })
              else err (unsupported_version version header.version))
          else err (invalid_domain domain.bytes header.domain.bytes))
unfolding write_to write_all write_le read_expected read_array from_array header_new
read_expected-write_to header domain version rest tag word =
    rw
      (
        append_assoc header.domain.bytes (to_le_bytes 2 header.version) rest,
        read_exact-append 8 header.domain.bytes (to_le_bytes 2 header.version ++ rest) tag,
        read_le-append 2 header.version rest (omega arith),
      )
      (split (bytes_eq header.domain.bytes domain.bytes) (header.version == version)
        (ok (header, record { inner = rest })))
  where
    split :
        (a b : Bool) (done : Result UtilsError (SerializationHeader × BufferReader))
        → (guard a (invalid_domain domain.bytes header.domain.bytes)
            >> (guard b (unsupported_version version header.version) >> done))
          ≡ (if a
              then (if b then done else err (unsupported_version version header.version))
              else err (invalid_domain domain.bytes header.domain.bytes))
    split true true done = refl
    split true false done = refl
    split false b done = refl
