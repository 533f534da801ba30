-- ===== src/Multiparty/Share/RoundTrip.antt =====
-- A share is decoded from its encoding.
use phantom_fhe.Base.{ℕ, ◌^◌, ◌<◌, ◌≡◌, ◌⊎◌, refl, ◌∙◌, false, ◌==◌, ok, length, IsU64, arith}
use phantom_fhe.Multiparty.Participant.{participant_id_new, participant_id_encode}
use phantom_fhe.Multiparty.Session.{
  ProtocolKind, session_id_new, session_id_encode, protocol_tag, protocol_from_tag,
}
use phantom_fhe.Multiparty.Wire.{reader_new}
use phantom_fhe.Multiparty.Wire.Reading.{
  IsAt, expect-IsAt, read_u32-IsAt, read_u64-IsAt, read_framed-last, reader_new-IsAt,
}
use phantom_fhe.Multiparty.Share.{
  ShareKind, Share, share_tag, share_from_tag, share_magic, share_encode, share_decode,
}

-- What the types of the source and its constructors give: identifiers are nonzero words, the
-- round is a word, tags fit in 32 bits, and the payload is neither empty nor near 2 ^ 64 bytes.
pub record IsShare (share : Share) : Type 0 where
  pub session_pos : 0 < share.session_id
  pub session_word : IsU64 share.session_id
  pub protocol_word : protocol_tag share.protocol < 2 ^ 32
  pub round_word : IsU64 share.round
  pub participant_pos : 0 < share.participant
  pub participant_word : IsU64 share.participant
  pub kind_word : share_tag share.kind < 2 ^ 32
  pub payload_pos : 0 < length share.payload
  pub payload_bound : length (share_encode share) < 2 ^ 64

-- A custom tag is none of the tags 1 to 6 that the named kinds have.
abbrev pub IsPlainTag : ℕ → Type 0
IsPlainTag tag = (tag ≡ 0) ⊎ (6 < tag)

abbrev pub IsPlainProtocol : ProtocolKind → Type 0
IsPlainProtocol (ProtocolKind.custom tag) = IsPlainTag tag
IsPlainProtocol _ = Unit

abbrev pub IsPlainKind : ShareKind → Type 0
IsPlainKind (ShareKind.custom tag) = IsPlainTag tag
IsPlainKind _ = Unit

pub protocol_from_tag-protocol_tag :
    (protocol : ProtocolKind)
    → IsPlainProtocol protocol
    → protocol_from_tag (protocol_tag protocol) ≡ protocol
unfolding protocol_from_tag protocol_tag
protocol_from_tag-protocol_tag ProtocolKind.collective_key_gen h = refl
protocol_from_tag-protocol_tag ProtocolKind.relinearization_key_gen h = refl
protocol_from_tag-protocol_tag ProtocolKind.galois_key_gen h = refl
protocol_from_tag-protocol_tag ProtocolKind.partial_decryption h = refl
protocol_from_tag-protocol_tag ProtocolKind.re_encryption h = refl
protocol_from_tag-protocol_tag ProtocolKind.interactive_bootstrap h = refl
protocol_from_tag-protocol_tag (ProtocolKind.custom tag) h = ground (arith, h)

share_from_tag-share_tag :
    (kind : ShareKind) → IsPlainKind kind → share_from_tag (share_tag kind) ≡ kind
unfolding share_from_tag share_tag
share_from_tag-share_tag ShareKind.collective_key_gen h = refl
share_from_tag-share_tag ShareKind.relinearization_key_gen h = refl
share_from_tag-share_tag ShareKind.galois_key_gen h = refl
share_from_tag-share_tag ShareKind.partial_decryption h = refl
share_from_tag-share_tag ShareKind.re_encryption h = refl
share_from_tag-share_tag ShareKind.interactive_bootstrap h = refl
share_from_tag-share_tag (ShareKind.custom tag) h = ground (arith, h)

-- The kinds come back from their tags; all else comes back as it was.
share_decode-share_encode_tags :
    (share : Share)
    → IsShare share
    → share_decode (share_encode share)
      ≡ ok record {
        session_id = share.session_id;
        protocol = protocol_from_tag (protocol_tag share.protocol);
        round = share.round;
        participant = share.participant;
        kind = share_from_tag (share_tag share.kind);
        payload = share.payload;
      }
unfolding share_decode share_encode session_id_encode participant_id_encode session_id_new
    participant_id_new
share_decode-share_encode_tags share h =
    let (e1, a1) = expect-IsAt (reader_new (share_encode share)) share_magic _ (start share h) in
    let (e2, a2) = read_u64-IsAt _ share.session_id _ h.session_word a1 in
    let (e3, a3) = read_u32-IsAt _ (protocol_tag share.protocol) _ h.protocol_word a2 in
    let (e4, a4) = read_u64-IsAt _ share.round _ h.round_word a3 in
    let (e5, a5) = read_u64-IsAt _ share.participant _ h.participant_word a4 in
    let (e6, a6) = read_u32-IsAt _ (share_tag share.kind) _ h.kind_word a5 in
    let (e7, done) = read_framed-last _ share.payload a6 in
    let session : (share.session_id == 0) ≡ false = ground (arith, h.session_pos) in
    let participant : (share.participant == 0) ≡ false = ground (arith, h.participant_pos) in
    let payload : (length share.payload == 0) ≡ false = ground (arith, h.payload_pos) in
    rw (e1, e2, session, e3, e4, e5, participant, e6, e7, done, payload)
  where
    start : (s : Share) → IsShare s → IsAt (reader_new (share_encode s)) (share_encode s)
    start s k = reader_new-IsAt (share_encode s) k.payload_bound

-- A share with nonzero word identifiers, a word round, 32-bit tags, a payload that is not empty
-- and an encoding below 2 ^ 64 bytes, whose kinds are named ones or custom ones with a tag of
-- their own, is decoded from its encoding just as it was.
pub share_decode-share_encode :
    (share : Share)
    → IsShare share
    → IsPlainProtocol share.protocol
    → IsPlainKind share.kind
    → share_decode (share_encode share) ≡ ok share
share_decode-share_encode share h protocol kind =
    share_decode-share_encode_tags share h
    ∙ (rw (
      protocol_from_tag-protocol_tag share.protocol protocol,
      share_from_tag-share_tag share.kind kind,
    ))
