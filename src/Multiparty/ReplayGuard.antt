-- ===== src/Multiparty/ReplayGuard.antt =====
-- crates/phantom-multiparty/src/common/replay_guard.rs
pub mod Safety
use phantom_fhe.Base.{
  ℕ, List, [], ◌∷◌, Bool, true, false, ◌||◌, ◌&&◌, ◌==◌, if◌then◌else◌, Result, ok, err,
}
use phantom_fhe.Multiparty.Error.{MultipartyError, replayed_share}
use phantom_fhe.Multiparty.Participant.{ParticipantId}
use phantom_fhe.Multiparty.Session.{SessionId, SessionState, protocol_tag}

-- `(session id, round, protocol, participant)`
pub record UseKey : Type 0 where
  pub session : SessionId
  pub round : ℕ
  pub protocol : ℕ
  pub participant : ParticipantId

unfoldable pub key_eq : UseKey → UseKey → Bool
key_eq a b =
    a.session == b.session
    && a.round == b.round
    && a.protocol == b.protocol
    && a.participant == b.participant

unfoldable pub is_used : UseKey → List UseKey → Bool
is_used key [] = false
is_used key (used ∷ rest) = key_eq key used || is_used key rest

pub record ReplayGuard : Type 0 where
  pub used : List UseKey

unfoldable pub guard_new : ReplayGuard
guard_new = record { used = [] }

unfoldable pub use_key : SessionState → ParticipantId → UseKey
use_key session participant = record {
  session = session.id;
  round = session.round;
  protocol = protocol_tag session.protocol;
  participant = participant;
}

-- The guard afterwards and the answer: a refused call leaves the set as it is.
unfoldable pub record_use :
    ReplayGuard → SessionState → ParticipantId → ReplayGuard × Result MultipartyError (Unit {0})
record_use guard session participant =
    if is_used (use_key session participant) guard.used
    then (guard, err replayed_share)
    else (record { used = use_key session participant ∷ guard.used }, ok tt)
