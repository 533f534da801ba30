-- ===== src/Multiparty/Session.antt =====
-- crates/phantom-multiparty/src/common/session.rs
use phantom_fhe.Base.{
  ℕ, ◌+◌, ◌-◌, ◌^◌, min, List, ◌++◌, ◌||◌, ◌==◌, ltb, if◌then◌else◌, Result, ok, err, u64,
}
use phantom_fhe.Base.Bytes.{to_le_bytes}
use phantom_fhe.Multiparty.Error.{MultipartyError, invalid_parameters, unknown_participant}
use phantom_fhe.Multiparty.Participant.{
  ParticipantId, ParticipantSet, contains, set_len, participant_set_encode,
}

-- A nonzero number.
abbrev pub SessionId : Type 0
SessionId = ℕ

unfoldable pub session_id_new : ℕ → Result MultipartyError SessionId
session_id_new value = if value == 0 then err invalid_parameters else ok value

unfoldable pub session_id_encode : SessionId → List ℕ
session_id_encode id = to_le_bytes 8 id

pub data ProtocolKind : Type 0 where
  collective_key_gen relinearization_key_gen galois_key_gen partial_decryption : ProtocolKind
  re_encryption interactive_bootstrap : ProtocolKind
  custom : ℕ → ProtocolKind

unfoldable pub protocol_tag : ProtocolKind → ℕ
protocol_tag ProtocolKind.collective_key_gen = 1
protocol_tag ProtocolKind.relinearization_key_gen = 2
protocol_tag ProtocolKind.galois_key_gen = 3
protocol_tag ProtocolKind.partial_decryption = 4
protocol_tag ProtocolKind.re_encryption = 5
protocol_tag ProtocolKind.interactive_bootstrap = 6
protocol_tag (ProtocolKind.custom tag) = tag

unfoldable pub protocol_from_tag : ℕ → ProtocolKind
protocol_from_tag tag =
    if tag == 1
    then ProtocolKind.collective_key_gen
    else if tag == 2
    then ProtocolKind.relinearization_key_gen
    else if tag == 3
    then ProtocolKind.galois_key_gen
    else if tag == 4
    then ProtocolKind.partial_decryption
    else if tag == 5
    then ProtocolKind.re_encryption
    else if tag == 6
    then ProtocolKind.interactive_bootstrap
    else ProtocolKind.custom tag

pub record SessionState : Type 0 where
  pub id : SessionId
  pub protocol : ProtocolKind
  pub participants : ParticipantSet
  pub threshold : ℕ
  pub round : ℕ

unfoldable pub session_new :
    SessionId → ProtocolKind → ParticipantSet → ℕ → Result MultipartyError SessionState
session_new id protocol participants threshold =
    if threshold == 0 || ltb (set_len participants) threshold
    then err invalid_parameters
    else ok record {
      id = id;
      protocol = protocol;
      participants = participants;
      threshold = threshold;
      round = 0;
    }

-- `saturating_add`
unfoldable pub advance_round : SessionState → SessionState
advance_round session = record {
  id = session.id;
  protocol = session.protocol;
  participants = session.participants;
  threshold = session.threshold;
  round = min (session.round + 1) (2 ^ 64 - 1);
}

unfoldable pub check_participant : SessionState → ParticipantId → Result MultipartyError (Unit {0})
check_participant session participant =
    if contains session.participants participant then ok tt else err unknown_participant

unfoldable pub session_encode : SessionState → List ℕ
session_encode session =
    session_id_encode session.id
    ++ (to_le_bytes 4 (protocol_tag session.protocol)
        ++ (to_le_bytes 8 (u64 session.threshold)
            ++ (to_le_bytes 8 session.round ++ participant_set_encode session.participants)))
