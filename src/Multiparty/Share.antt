-- ===== src/Multiparty/Share.antt =====
-- crates/phantom-multiparty/src/common/shares.rs: share kinds and shares.
pub mod RoundTrip
use phantom_fhe.Base.{
  ℕ, List, [], ◌∷◌, ◌++◌, Bool, true, false, not, ◌||◌, ◌==◌, if◌then◌else◌, Result, ok, err, ◌>>=◌,
  ◌>>◌, guard, length,
}
use phantom_fhe.Base.Bytes.{to_le_bytes}
use phantom_fhe.Multiparty.Error.{MultipartyError, malformed_message, stale_share}
use phantom_fhe.Multiparty.Participant.{ParticipantId, participant_id_new, participant_id_encode}
use phantom_fhe.Multiparty.Session.{
  SessionId, ProtocolKind, SessionState, session_id_new, session_id_encode, protocol_tag,
  protocol_from_tag, check_participant,
}
use phantom_fhe.Multiparty.Wire.{
  encode_bytes, reader_new, expect, read_u32, read_u64, read_framed, is_finished,
}

pub data ShareKind : Type 0 where
  collective_key_gen relinearization_key_gen galois_key_gen partial_decryption : ShareKind
  re_encryption interactive_bootstrap : ShareKind
  custom : ℕ → ShareKind

unfoldable pub share_tag : ShareKind → ℕ
share_tag ShareKind.collective_key_gen = 1
share_tag ShareKind.relinearization_key_gen = 2
share_tag ShareKind.galois_key_gen = 3
share_tag ShareKind.partial_decryption = 4
share_tag ShareKind.re_encryption = 5
share_tag ShareKind.interactive_bootstrap = 6
share_tag (ShareKind.custom tag) = tag

unfoldable pub share_from_tag : ℕ → ShareKind
share_from_tag tag =
    if tag == 1
    then ShareKind.collective_key_gen
    else if tag == 2
    then ShareKind.relinearization_key_gen
    else if tag == 3
    then ShareKind.galois_key_gen
    else if tag == 4
    then ShareKind.partial_decryption
    else if tag == 5
    then ShareKind.re_encryption
    else if tag == 6
    then ShareKind.interactive_bootstrap
    else ShareKind.custom tag

-- The derived `==`.
unfoldable pub kind_eq : ShareKind → ShareKind → Bool
kind_eq ShareKind.collective_key_gen ShareKind.collective_key_gen = true
kind_eq ShareKind.relinearization_key_gen ShareKind.relinearization_key_gen = true
kind_eq ShareKind.galois_key_gen ShareKind.galois_key_gen = true
kind_eq ShareKind.partial_decryption ShareKind.partial_decryption = true
kind_eq ShareKind.re_encryption ShareKind.re_encryption = true
kind_eq ShareKind.interactive_bootstrap ShareKind.interactive_bootstrap = true
kind_eq (ShareKind.custom a) (ShareKind.custom b) = a == b
kind_eq _ _ = false

pub record Share : Type 0 where
  pub session_id : SessionId
  pub protocol : ProtocolKind
  pub round : ℕ
  pub participant : ParticipantId
  pub kind : ShareKind
  pub payload : List ℕ

unfoldable pub share_new :
    SessionState → ParticipantId → ShareKind → List ℕ → Result MultipartyError Share
share_new session participant kind payload = do
  check_participant session participant
  guard (not (length payload == 0)) malformed_message
  ok record {
    session_id = session.id;
    protocol = session.protocol;
    round = session.round;
    participant = participant;
    kind = kind;
    payload = payload;
  }

-- `b"PMSHR1"`
unfoldable pub share_magic : List ℕ
share_magic = 80 ∷ 77 ∷ 83 ∷ 72 ∷ 82 ∷ 49 ∷ []

unfoldable pub share_encode : Share → List ℕ
share_encode share =
    share_magic
    ++ (session_id_encode share.session_id
        ++ (to_le_bytes 4 (protocol_tag share.protocol)
            ++ (to_le_bytes 8 share.round
                ++ (participant_id_encode share.participant
                    ++ (to_le_bytes 4 (share_tag share.kind) ++ encode_bytes share.payload)))))

unfoldable pub share_decode : List ℕ → Result MultipartyError Share
share_decode input = do
  r1 ← expect (reader_new input) share_magic
  (raw_session, r2) ← read_u64 r1
  session_id ← session_id_new raw_session
  (raw_protocol, r3) ← read_u32 r2
  (round, r4) ← read_u64 r3
  (raw_participant, r5) ← read_u64 r4
  participant ← participant_id_new raw_participant
  (raw_kind, r6) ← read_u32 r5
  (payload, r7) ← read_framed r6
  guard (not (not (is_finished r7) || length payload == 0)) malformed_message
  ok record {
    session_id = session_id;
    protocol = protocol_from_tag raw_protocol;
    round = round;
    participant = participant;
    kind = share_from_tag raw_kind;
    payload = payload;
  }

unfoldable pub check_for_session :
    Share → SessionState → ShareKind → Result MultipartyError (Unit {0})
check_for_session share session kind = do
  guard
      (not (
        not (share.session_id == session.id)
        || not (protocol_tag share.protocol == protocol_tag session.protocol)
        || not (share.round == session.round)))
      stale_share
  guard (kind_eq share.kind kind) malformed_message
  check_participant session share.participant
