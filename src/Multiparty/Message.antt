-- ===== src/Multiparty/Message.antt =====
-- crates/phantom-multiparty/src/common/transcript.rs: messages and the transcript of a session.
pub mod RoundTrip
pub mod Membership
use phantom_fhe.Base.{
  ℕ, List, [], ◌∷◌, ◌++◌, not, ◌||◌, ◌==◌, Result, ok, ◌>>=◌, ◌>>◌, guard, length, u64,
}
use phantom_fhe.Base.Bytes.{to_le_bytes}
use phantom_fhe.Multiparty.Error.{MultipartyError, malformed_message, stale_share}
use phantom_fhe.Multiparty.Participant.{ParticipantId, participant_id_new, participant_id_encode}
use phantom_fhe.Multiparty.Session.{
  SessionId, ProtocolKind, SessionState, session_id_new, session_id_encode, protocol_tag,
  protocol_from_tag, check_participant, session_encode,
}
use phantom_fhe.Multiparty.Wire.{
  encode_bytes, reader_new, expect, read_u32, read_u64, read_framed, is_finished,
}

pub record TranscriptMessage : Type 0 where
  pub session_id : SessionId
  pub protocol : ProtocolKind
  pub round : ℕ
  pub sender : ParticipantId
  pub label : List ℕ
  pub payload : List ℕ

unfoldable pub message_new :
    SessionState → ParticipantId → List ℕ → List ℕ → Result MultipartyError TranscriptMessage
message_new session sender label payload = do
  check_participant session sender
  guard (not (length label == 0)) malformed_message
  ok record {
    session_id = session.id;
    protocol = session.protocol;
    round = session.round;
    sender = sender;
    label = label;
    payload = payload;
  }

-- `b"PMMSG1"`
unfoldable pub message_magic : List ℕ
message_magic = 80 ∷ 77 ∷ 77 ∷ 83 ∷ 71 ∷ 49 ∷ []

unfoldable pub message_encode : TranscriptMessage → List ℕ
message_encode message =
    message_magic
    ++ (session_id_encode message.session_id
        ++ (to_le_bytes 4 (protocol_tag message.protocol)
            ++ (to_le_bytes 8 message.round
                ++ (participant_id_encode message.sender
                    ++ (encode_bytes message.label ++ encode_bytes message.payload)))))

unfoldable pub message_decode : List ℕ → Result MultipartyError TranscriptMessage
message_decode input = do
  r1 ← expect (reader_new input) message_magic
  (raw_session, r2) ← read_u64 r1
  session_id ← session_id_new raw_session
  (raw_protocol, r3) ← read_u32 r2
  (round, r4) ← read_u64 r3
  (raw_sender, r5) ← read_u64 r4
  sender ← participant_id_new raw_sender
  (label, r6) ← read_framed r5
  (payload, r7) ← read_framed r6
  guard (not (not (is_finished r7) || length label == 0)) malformed_message
  ok record {
    session_id = session_id;
    protocol = protocol_from_tag raw_protocol;
    round = round;
    sender = sender;
    label = label;
    payload = payload;
  }

pub record Transcript : Type 0 where
  pub session : SessionState
  pub messages : List TranscriptMessage

unfoldable pub transcript_new : SessionState → Transcript
transcript_new session = record { session = session; messages = [] }

unfoldable pub transcript_append :
    Transcript → TranscriptMessage → Result MultipartyError Transcript
transcript_append transcript message = do
  guard
      (not (
        not (message.session_id == transcript.session.id)
        || not (protocol_tag message.protocol == protocol_tag transcript.session.protocol)
        || not (message.round == transcript.session.round)))
      stale_share
  ok record { session = transcript.session; messages = transcript.messages ++ (message ∷ []) }

unfoldable pub encode_messages : List TranscriptMessage → List ℕ
encode_messages [] = []
encode_messages (message ∷ rest) = encode_bytes (message_encode message) ++ encode_messages rest

-- `b"PMTRN1"` first.
unfoldable pub transcript_encode : Transcript → List ℕ
transcript_encode transcript =
    (80 ∷ 77 ∷ 84 ∷ 82 ∷ 78 ∷ 49 ∷ [])
    ++ (session_encode transcript.session
        ++ (to_le_bytes 8 (u64 (length transcript.messages))
            ++ encode_messages transcript.messages))

-- `Sha256::digest` is a parameter.
unfoldable pub transcript_hash : (List ℕ → List ℕ) → Transcript → List ℕ
transcript_hash digest transcript = digest (transcript_encode transcript)
