-- ===== src/Utils/Header.antt =====
-- crates/phantom-utils/src/serialization/mod.rs: domain tags, versions and the header.
pub mod RoundTrip
use phantom_fhe.Base.{
  ℕ, List, Result, ok, err, ◌>>=◌, ◌>>◌, guard, not, if◌then◌else◌, length, ◌==◌,
}
use phantom_fhe.Base.Bytes.{bytes_eq}
use phantom_fhe.Utils.Error.{UtilsError, invalid_domain_length, invalid_domain, unsupported_version}
use phantom_fhe.Utils.Buffer.{BufferReader, BufferWriter, read_array, read_le, write_all, write_le}

-- Eight bytes.
pub record DomainTag : Type 0 where
  pub bytes : List ℕ

unfoldable pub from_array : List ℕ → DomainTag
from_array bytes = record { bytes = bytes }

unfoldable pub from_slice : List ℕ → Result UtilsError DomainTag
from_slice bytes =
    if not (length bytes == 8)
    then err (invalid_domain_length (length bytes))
    else ok record { bytes = bytes }

pub record SerializationHeader : Type 0 where
  pub domain : DomainTag
  pub version : ℕ

unfoldable pub header_new : DomainTag → ℕ → SerializationHeader
header_new domain version = record { domain = domain; version = version }

unfoldable pub write_to : SerializationHeader → BufferWriter → Result UtilsError BufferWriter
write_to header writer = do
  next ← write_all header.domain.bytes writer
  write_le 2 header.version next

unfoldable pub read_expected :
    BufferReader → DomainTag → ℕ → Result UtilsError (SerializationHeader × BufferReader)
read_expected reader expected_domain expected_version = do
  (found, after_domain) ← read_array 8 reader
  guard (bytes_eq (from_array found).bytes expected_domain.bytes)
      (invalid_domain expected_domain.bytes (from_array found).bytes)
  (found_version, after_version) ← read_le 2 after_domain
  guard (found_version == expected_version) (unsupported_version expected_version found_version)
  ok (header_new (from_array found) found_version, after_version)
