-- ===== src/Multiparty/Vss/ShareRoundTrip.antt =====
-- Shares are decoded from their encodings.
use phantom_fhe.Base.{
  ℕ, ◌*◌, ◌^◌, ◌<◌, ◌≡◌, refl, sym, ap, ◌∙◌, subst, List, [], ◌∷◌, ◌++◌, some, false, ◌==◌, ok,
  length, u64, u64_mod, IsU64, arith, append_assoc, append-nil, length-append,
}
use phantom_fhe.Base.Bytes.{to_le_bytes}
use phantom_fhe.Base.Residues.{mod-eq_small}
use phantom_fhe.Multiparty.Participant.{participant_id_new}
use phantom_fhe.Multiparty.Wire.{ByteReader, reader_new, advance}
use phantom_fhe.Multiparty.Wire.Reading.{
  IsAt, take_bytes-IsAt, expect-IsAt, read_u64-IsAt, is_finished-IsAt, reader_new-IsAt,
}
use phantom_fhe.Multiparty.Vss.{Curve}
use phantom_fhe.Multiparty.Vss.Share.{VssShare}
use phantom_fhe.Multiparty.Vss.Codec.{
  vss_share_magic, with_capacity32, bytes32, encode_scalars, vss_share_encode, read_scalar,
  read_scalars, vss_share_decode,
}
use phantom_fhe.Multiparty.Vss.RoundTrip.{Reads, with_capacity32-fits}

-- A scalar's bytes are the canonical ones.
pub record CanonicalBytes (c : Curve) : Type 0 where
  pub sized : (s : c.Scalar) → length (c.as_bytes s) ≡ 32
  pub canonical : (s : c.Scalar) → c.from_canonical_bytes (c.as_bytes s) ≡ some s

module _ (c : Curve) (laws : CanonicalBytes c) where
  open c use {Scalar, as_bytes}

  read_scalar-IsAt :
      (s : Scalar) (reader : ByteReader) (ys : List ℕ)
      → IsAt reader (as_bytes s ++ ys)
      → Reads (read_scalar c reader) s ys
  unfolding read_scalar bytes32
  read_scalar-IsAt s reader ys at =
      let (read, at') = take_bytes-IsAt reader 32 (as_bytes s) ys (laws.sized s) at in
      (advance reader 32, rw (read, laws.canonical s) refl, at')

  read_scalars-IsAt :
      (values : List Scalar) (reader : ByteReader) (ys : List ℕ)
      → IsAt reader (encode_scalars c values ++ ys)
      → Reads (read_scalars c (length values) reader) values ys
  unfolding read_scalars encode_scalars
  read_scalars-IsAt [] reader ys at = (reader, refl, at)
  read_scalars-IsAt (s ∷ ss) reader ys at =
      let (middle, first, at') =
        read_scalar-IsAt s reader (encode_scalars c ss ++ ys)
          (subst (IsAt reader) (append_assoc (as_bytes s) (encode_scalars c ss) ys) at) in
      let (last, others, at'') = read_scalars-IsAt ss middle ys at' in
      (last, rw (first, others) refl, at'')

  read_scalars_counted :
      (n : ℕ) (values : List Scalar) (reader : ByteReader) (ys : List ℕ)
      → n ≡ length values
      → IsAt reader (encode_scalars c values ++ ys)
      → Reads (read_scalars c n reader) values ys
  read_scalars_counted n values reader ys e at =
      subst (λ (k : ℕ). Reads (read_scalars c k reader) values ys) (sym e)
        (read_scalars-IsAt values reader ys at)

  length-encode_scalars : (ss : List Scalar) → length (encode_scalars c ss) ≡ 32 * length ss
  unfolding encode_scalars
  length-encode_scalars [] = refl
  length-encode_scalars (s ∷ ss) = omega (
    arith,
    length-append (as_bytes s) (encode_scalars c ss),
    laws.sized s,
    length-encode_scalars ss,
  )

  pub record IsVssShare (share : VssShare Scalar) : Type 0 where
    pub dealer_pos : 0 < share.dealer
    pub dealer_word : IsU64 share.dealer
    pub recipient_pos : 0 < share.recipient
    pub recipient_word : IsU64 share.recipient
    pub bounded : length (vss_share_encode c share) < 2 ^ 63

  -- A share with nonzero word identifiers and an encoding below 2 ^ 63 bytes is decoded from its
  -- encoding just as it was.
  pub vss_share_decode-vss_share_encode :
      (share : VssShare Scalar)
      → IsVssShare share
      → vss_share_decode c (vss_share_encode c share) ≡ ok share
  unfolding vss_share_decode vss_share_encode participant_id_new
  vss_share_decode-vss_share_encode share h =
      let n = length share.values in
      let body = encode_scalars c share.values ++ as_bytes share.blinding in
      let counted = to_le_bytes 8 (u64 n) ++ body in
      let count : n * 32 < 2 ^ 63 = omega (
        arith,
        h.bounded,
        length-encode_scalars share.values,
        length-append (encode_scalars c share.values) (as_bytes share.blinding),
        length-append (to_le_bytes 8 (u64 n)) body,
        length-append (to_le_bytes 8 share.recipient) counted,
        length-append (to_le_bytes 8 share.dealer) (to_le_bytes 8 share.recipient ++ counted),
        length-append vss_share_magic
            (to_le_bytes 8 share.dealer ++ (to_le_bytes 8 share.recipient ++ counted)),
      ) in
      let small : u64 n ≡ n = mod-eq_small n u64_mod (omega (arith, count)) in
      let (e1, a1) =
        expect-IsAt (reader_new (vss_share_encode c share)) vss_share_magic _
          (reader_new-IsAt (vss_share_encode c share) (omega (arith, h.bounded))) in
      let (e2, a2) = read_u64-IsAt _ share.dealer _ h.dealer_word a1 in
      let (e3, a3) = read_u64-IsAt _ share.recipient _ h.recipient_word a2 in
      let (e4, a4) = read_u64-IsAt _ (u64 n) _ (omega arith) a3 in
      let (middle, e5, a5) =
        read_scalars_counted _ share.values _ (as_bytes share.blinding) small a4 in
      let (last, e6, a6) =
        read_scalar-IsAt share.blinding middle []
          (subst (IsAt middle) (sym (append-nil (as_bytes share.blinding))) a5) in
      let dealer : (share.dealer == 0) ≡ false = ground (arith, h.dealer_pos) in
      let recipient : (share.recipient == 0) ≡ false = ground (arith, h.recipient_pos) in
      rw (
        e1,
        e2,
        dealer,
        e3,
        recipient,
        e4,
        ap with_capacity32 small ∙ with_capacity32-fits n count,
        e5,
        e6,
        is_finished-IsAt last a6,
      )
