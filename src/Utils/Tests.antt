-- ===== src/Utils/Tests.antt =====
-- The round trips of the buffer and of the header at small inputs.
use phantom_fhe.Base.{ℕ, ◌≡◌, refl, List, [], ◌∷◌, ◌++◌, ok, err, ◌>>=◌, if◌then◌else◌, ◌==◌, arith}
use phantom_fhe.Base.Bytes.{bytes_eq}
use phantom_fhe.Utils.Error.{invalid_domain, unsupported_version}
use phantom_fhe.Utils.Buffer.{read_bytes, write_bytes}
use phantom_fhe.Utils.Buffer.RoundTrip.{read_bytes-write_bytes}
use phantom_fhe.Utils.Header.{DomainTag, SerializationHeader, write_to, read_expected}
use phantom_fhe.Utils.Header.RoundTrip.{read_expected-write_to}

abbrev payload : List ℕ
payload = 1 ∷ 2 ∷ 255 ∷ []

abbrev following : List ℕ
following = 9 ∷ []

read_bytes-write_bytes_example :
    (write_bytes payload record { output = [] } >>= λ writer.
    read_bytes record { inner = writer.output ++ following })
    ≡ ok (payload, record { inner = following })
read_bytes-write_bytes_example = read_bytes-write_bytes payload following (omega arith)

abbrev tag : DomainTag
tag = record { bytes = 80 ∷ 72 ∷ 65 ∷ 78 ∷ 84 ∷ 79 ∷ 77 ∷ 49 ∷ [] }

abbrev header : SerializationHeader
header = record { domain = tag; version = 258 }

read_expected-write_to_example :
    (write_to header record { output = [] } >>= λ writer.
    read_expected record { inner = writer.output ++ following } tag 1)
    ≡ (if bytes_eq header.domain.bytes tag.bytes
        then (if header.version == 1
            then ok (header, record { inner = following })
            else err (unsupported_version 1 header.version))
        else err (invalid_domain tag.bytes header.domain.bytes))
read_expected-write_to_example = read_expected-write_to header tag 1 following refl (omega arith)
