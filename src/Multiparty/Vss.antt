-- ===== src/Multiparty/Vss.antt =====
-- crates/phantom-multiparty/src/vss/generators.rs and the types of vss/share.rs. Scalars, points
-- and the hash function are those of curve25519_dalek and sha2, a parameter.
pub mod Embed
pub mod Polynomial
pub mod Commitments
pub mod Share
pub mod Accumulator
pub mod Reconstruct
pub mod Codec
pub mod Laws
pub mod Opening
pub mod Honest
pub mod Sampling
pub mod Combining
pub mod Accepting
pub mod Collective
pub mod Recovery
pub mod RoundTrip
pub mod ShareRoundTrip
mod Tests
mod CodecTests
use phantom_fhe.Base.{ℕ, zero, suc, ◌+◌, List, [], ◌∷◌, ◌++◌, Bool, Option, length}
use phantom_fhe.Base.Bytes.{to_le_bytes}

-- The operations of the curve library: `Scalar`, `RistrettoPoint` and their encodings. A compressed
-- point is its 32 bytes.
pub record Curve : Type 1 where
  pub Scalar : Type 0
  pub Point : Type 0
  pub zero : Scalar
  pub one : Scalar
  pub plus : Scalar → Scalar → Scalar
  pub times : Scalar → Scalar → Scalar
  pub minus : Scalar → Scalar → Scalar
  pub negate : Scalar → Scalar
  pub invert : Scalar → Scalar
  pub scalar_eq : Scalar → Scalar → Bool
  pub scalar_from : ℕ → Scalar
  pub as_bytes : Scalar → List ℕ
  pub from_canonical_bytes : List ℕ → Option Scalar
  pub plus_points : Point → Point → Point
  pub point_eq : Point → Point → Bool
  pub multiscalar_mul : List Scalar → List Point → Point
  pub vartime_multiscalar_mul : List Scalar → List Point → Point
  pub compress : Point → List ℕ
  pub decompress : List ℕ → Option Point
  pub from_uniform_bytes : List ℕ → Point
  pub sha512 : List ℕ → List ℕ

abbrev pub CompressedPoint : Type 0
CompressedPoint = List ℕ

-- b"phantom-fhe/vss/gen/g/v1"
abbrev pub generator_g_domain : List ℕ
generator_g_domain =
    112 ∷ 104 ∷ 97 ∷ 110 ∷ 116 ∷ 111 ∷ 109 ∷ 45 ∷ 102 ∷ 104 ∷ 101 ∷ 47 ∷ 118 ∷ 115 ∷ 115 ∷ 47 ∷ 103
    ∷ 101 ∷ 110 ∷ 47 ∷ 103 ∷ 47 ∷ 118 ∷ 49 ∷ []

-- b"phantom-fhe/vss/gen/h/v1"
abbrev pub generator_h_domain : List ℕ
generator_h_domain =
    112 ∷ 104 ∷ 97 ∷ 110 ∷ 116 ∷ 111 ∷ 109 ∷ 45 ∷ 102 ∷ 104 ∷ 101 ∷ 47 ∷ 118 ∷ 115 ∷ 115 ∷ 47 ∷ 103
    ∷ 101 ∷ 110 ∷ 47 ∷ 104 ∷ 47 ∷ 118 ∷ 49 ∷ []

pub record PedersenGenerators (P : Type 0) : Type 0 where
  pub g : List P
  pub h : P

unfoldable pub vector_len : {P : Type 0} → PedersenGenerators P → ℕ
vector_len generators = length generators.g

module _ (c : Curve) where
  open c use {Point, sha512, from_uniform_bytes}

  unfoldable pub hash_to_point : List ℕ → ℕ → Point
  hash_to_point domain index = from_uniform_bytes (sha512 (domain ++ to_le_bytes 8 index))

  -- The generators from index `j` on.
  unfoldable pub derive_from : ℕ → ℕ → List Point
  derive_from j zero = []
  derive_from j (suc n) = hash_to_point generator_g_domain j ∷ derive_from (j + 1) n

  unfoldable pub derive : ℕ → PedersenGenerators Point
  derive vector_len = record {
    g = derive_from 0 vector_len;
    h = hash_to_point generator_h_domain 0;
  }
