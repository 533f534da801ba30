-- ===== src/Multiparty/Vss/CodecTests.antt =====
-- Round trips of concrete shares and commitment sets.
use phantom_fhe.Base.{
  ℕ, ◌%◌, ◌^◌, ◌≡◌, refl, List, [], ◌∷◌, ◌++◌, Bool, true, false, not, ◌&&◌, ◌==◌, Option, some, ok,
  panic, replicate, length, get_or, arith,
}
use phantom_fhe.Base.Bytes.{to_le_bytes}
use phantom_fhe.Multiparty.Vss.{Curve}
use phantom_fhe.Multiparty.Vss.Commitments.{VssCommitmentSet}
use phantom_fhe.Multiparty.Vss.Share.{VssShare}
use phantom_fhe.Multiparty.Vss.Codec.{
  commitment_set_magic, commitment_set_encode, commitment_set_decode, vss_share_encode,
  vss_share_decode, encode_points, encode_scalars, vss_share_magic,
}
use phantom_fhe.Multiparty.Vss.RoundTrip.{
  IsCommitmentSet, commitment_set_decode-commitment_set_encode, commitment_set_decode-panic,
}
use phantom_fhe.Multiparty.Vss.ShareRoundTrip.{
  CanonicalBytes, IsVssShare, vss_share_decode-vss_share_encode,
}

abbrev coded_set : VssCommitmentSet
coded_set = record { dealer = 9; commitments = replicate 32 1 ∷ replicate 32 255 ∷ [] }

coded_set-IsCommitmentSet : IsCommitmentSet coded_set
unfolding commitment_set_encode encode_points commitment_set_magic
coded_set-IsCommitmentSet = record {
  dealer_pos = omega arith;
  dealer_word = omega arith;
  points = (refl, (refl, tt));
  bounded = omega arith;
}

-- Scalars modulo 2, in 32 bytes.
abbrev parity_byte : Bool → ℕ
parity_byte true = 1
parity_byte false = 0

abbrev read_parity : List ℕ → Option Bool
read_parity bytes = some (get_or bytes 0 0 == 1)

abbrev xor : Bool → Bool → Bool
xor true b = not b
xor false b = b

abbrev parity : Curve
parity = record {
  Scalar = Bool;
  Point = Bool;
  zero = false;
  one = true;
  plus = xor;
  times = ◌&&◌;
  minus = xor;
  negate = λ s. s;
  invert = λ s. s;
  scalar_eq = λ a b. not (xor a b);
  scalar_from = λ n. n % 2 == 1;
  as_bytes = λ s. parity_byte s ∷ replicate 31 0;
  from_canonical_bytes = read_parity;
  plus_points = xor;
  point_eq = λ p q. not (xor p q);
  multiscalar_mul = λ ss ps. true;
  vartime_multiscalar_mul = λ ss ps. true;
  compress = λ p. parity_byte p ∷ replicate 31 0;
  decompress = read_parity;
  from_uniform_bytes = λ bytes. true;
  sha512 = λ bytes. bytes;
}

parity_sized : (s : Bool) → length (parity.as_bytes s) ≡ 32
parity_sized true = refl
parity_sized false = refl

parity_canonical : (s : Bool) → parity.from_canonical_bytes (parity.as_bytes s) ≡ some s
parity_canonical true = refl
parity_canonical false = refl

parity_bytes : CanonicalBytes parity
parity_bytes = record { sized = parity_sized; canonical = parity_canonical }

abbrev coded_share : VssShare Bool
coded_share = record { dealer = 2; recipient = 5; values = true ∷ false ∷ []; blinding = true }

coded_share-IsVssShare : IsVssShare parity parity_bytes coded_share
unfolding vss_share_encode encode_scalars vss_share_magic
coded_share-IsVssShare = record {
  dealer_pos = omega arith;
  dealer_word = omega arith;
  recipient_pos = omega arith;
  recipient_word = omega arith;
  bounded = omega arith;
}

commitment_set_decode-commitment_set_encode_example :
    commitment_set_decode (commitment_set_encode coded_set) ≡ ok coded_set
commitment_set_decode-commitment_set_encode_example =
    commitment_set_decode-commitment_set_encode coded_set coded_set-IsCommitmentSet

commitment_set_decode-panic_example :
    commitment_set_decode
      (commitment_set_magic ++ (to_le_bytes 8 3 ++ (to_le_bytes 8 (2 ^ 60) ++ [])))
    ≡ panic
commitment_set_decode-panic_example =
    commitment_set_decode-panic 3 (2 ^ 60) [] (omega arith) (omega arith) (omega arith)
      (omega arith) (omega arith)

vss_share_decode-vss_share_encode_example :
    vss_share_decode parity (vss_share_encode parity coded_share) ≡ ok coded_share
vss_share_decode-vss_share_encode_example =
    vss_share_decode-vss_share_encode parity parity_bytes coded_share coded_share-IsVssShare
