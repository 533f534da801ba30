-- ===== src/Multiparty/Vss/Codec.antt =====
-- crates/phantom-multiparty/src/vss/share.rs: the byte forms of commitment sets and shares. The
-- file's own `Reader` is the `ByteReader` of common/transcript.rs under another name.
use phantom_fhe.Base.{
  ℕ, zero, suc, ◌-◌, ◌*◌, ◌^◌, List, [], ◌∷◌, ◌++◌, ltb, if◌then◌else◌, Result, ok, panic, ◌>>=◌,
  ◌>>◌, guard, ok_or, length, u64,
}
use phantom_fhe.Base.Bytes.{to_le_bytes}
use phantom_fhe.Multiparty.Error.{MultipartyError, malformed_message}
use phantom_fhe.Multiparty.Participant.{participant_id_new}
use phantom_fhe.Multiparty.Wire.{ByteReader, reader_new, expect, take_bytes, read_u64, is_finished}
use phantom_fhe.Multiparty.Vss.{Curve, CompressedPoint}
use phantom_fhe.Multiparty.Vss.Commitments.{VssCommitmentSet}
use phantom_fhe.Multiparty.Vss.Share.{VssShare}

-- `b"PMVSC1"`
unfoldable pub commitment_set_magic : List ℕ
commitment_set_magic = 80 ∷ 77 ∷ 86 ∷ 83 ∷ 67 ∷ 49 ∷ []

-- `b"PMVSH1"`
unfoldable pub vss_share_magic : List ℕ
vss_share_magic = 80 ∷ 77 ∷ 86 ∷ 83 ∷ 72 ∷ 49 ∷ []

-- `Vec::with_capacity(count)` of 32-byte items, which panics when the bytes exceed `isize::MAX`.
unfoldable pub with_capacity32 : ℕ → Result MultipartyError (Unit {0})
with_capacity32 count = if ltb (2 ^ 63 - 1) (count * 32) then panic else ok tt

unfoldable pub bytes32 : ByteReader → Result MultipartyError (List ℕ × ByteReader)
bytes32 reader = take_bytes reader 32

unfoldable pub encode_points : List CompressedPoint → List ℕ
encode_points [] = []
encode_points (commitment ∷ commitments) = commitment ++ encode_points commitments

unfoldable pub commitment_set_encode : VssCommitmentSet → List ℕ
commitment_set_encode set =
    commitment_set_magic
    ++ (to_le_bytes 8 set.dealer
        ++ (to_le_bytes 8 (u64 (length set.commitments)) ++ encode_points set.commitments))

-- Each turn of the loop needs 32 bytes more, so no run is longer than the input, whatever `count`.
unfoldable pub read_points :
    ℕ → ByteReader → Result MultipartyError (List CompressedPoint × ByteReader)
read_points zero reader = ok ([], reader)
read_points (suc count) reader = do
  (commitment, next) ← bytes32 reader
  (commitments, last) ← read_points count next
  ok (commitment ∷ commitments, last)

unfoldable pub commitment_set_decode : List ℕ → Result MultipartyError VssCommitmentSet
commitment_set_decode input = do
  r1 ← expect (reader_new input) commitment_set_magic
  (raw_dealer, r2) ← read_u64 r1
  dealer ← participant_id_new raw_dealer
  (count, r3) ← read_u64 r2
  with_capacity32 count
  (commitments, last) ← read_points count r3
  guard (is_finished last) malformed_message
  ok record { dealer = dealer; commitments = commitments }

module _ (c : Curve) where
  open c use {Scalar, as_bytes, from_canonical_bytes}

  unfoldable pub encode_scalars : List Scalar → List ℕ
  encode_scalars [] = []
  encode_scalars (value ∷ values) = as_bytes value ++ encode_scalars values

  unfoldable pub vss_share_encode : VssShare Scalar → List ℕ
  vss_share_encode share =
      vss_share_magic
      ++ (to_le_bytes 8 share.dealer
          ++ (to_le_bytes 8 share.recipient
              ++ (to_le_bytes 8 (u64 (length share.values))
                  ++ (encode_scalars share.values ++ as_bytes share.blinding))))

  unfoldable pub read_scalar : ByteReader → Result MultipartyError (Scalar × ByteReader)
  read_scalar reader = do
    (bytes, next) ← bytes32 reader
    scalar ← ok_or (from_canonical_bytes bytes) malformed_message
    ok (scalar, next)

  unfoldable pub read_scalars : ℕ → ByteReader → Result MultipartyError (List Scalar × ByteReader)
  read_scalars zero reader = ok ([], reader)
  read_scalars (suc count) reader = do
    (scalar, next) ← read_scalar reader
    (scalars, last) ← read_scalars count next
    ok (scalar ∷ scalars, last)

  unfoldable pub vss_share_decode : List ℕ → Result MultipartyError (VssShare Scalar)
  vss_share_decode input = do
    r1 ← expect (reader_new input) vss_share_magic
    (raw_dealer, r2) ← read_u64 r1
    dealer ← participant_id_new raw_dealer
    (raw_recipient, r3) ← read_u64 r2
    recipient ← participant_id_new raw_recipient
    (count, r4) ← read_u64 r3
    with_capacity32 count
    (values, r5) ← read_scalars count r4
    (blinding, last) ← read_scalar r5
    guard (is_finished last) malformed_message
    ok record { dealer = dealer; recipient = recipient; values = values; blinding = blinding }
