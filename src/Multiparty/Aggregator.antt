-- ===== src/Multiparty/Aggregator.antt =====
-- crates/phantom-multiparty/src/common/shares.rs: the aggregator. The map from participants to
-- shares is the list of its values in the order of the participants.
pub mod Acceptance
pub mod Invariant
pub mod Order
use phantom_fhe.Base.{
  ℕ, compare, Ordering, List, [], ◌∷◌, Bool, true, false, not, ◌||◌, ◌==◌, leb, if◌then◌else◌,
  Result, ok, err, ◌>>=◌, ◌>>◌, guard, length, take,
}
use phantom_fhe.Multiparty.Error.{MultipartyError, duplicate_participant, threshold_not_met}
use phantom_fhe.Multiparty.Participant.{ParticipantId}
use phantom_fhe.Multiparty.Session.{SessionState}
use phantom_fhe.Multiparty.Share.{Share, ShareKind, check_for_session}

pub record ShareAggregator : Type 0 where
  pub session : SessionState
  pub kind : ShareKind
  pub shares : List Share

unfoldable pub aggregator_new : SessionState → ShareKind → ShareAggregator
aggregator_new session kind = record { session = session; kind = kind; shares = [] }

-- `BTreeMap::contains_key`
unfoldable pub contains_key : ParticipantId → List Share → Bool
contains_key id [] = false
contains_key id (share ∷ rest) = id == share.participant || contains_key id rest

-- `BTreeMap::insert`
unfoldable pub insert_share : Share → List Share → List Share
insert_share share [] = share ∷ []
insert_share share (other ∷ rest) = elim (compare share.participant other.participant) [
  | Ordering.lt ↦ share ∷ other ∷ rest
  | Ordering.eq ↦ share ∷ rest
  | Ordering.gt ↦ other ∷ insert_share share rest
]

-- The aggregator with the share; where the call is refused the source leaves it as it was.
unfoldable pub add_share : ShareAggregator → Share → Result MultipartyError ShareAggregator
add_share aggregator share = do
  check_for_session share aggregator.session aggregator.kind
  guard (not (contains_key share.participant aggregator.shares)) duplicate_participant
  ok record {
    session = aggregator.session;
    kind = aggregator.kind;
    shares = insert_share share aggregator.shares;
  }

unfoldable pub is_ready : ShareAggregator → Bool
is_ready aggregator = leb aggregator.session.threshold (length aggregator.shares)

unfoldable pub aggregate : ShareAggregator → Result MultipartyError (List Share)
aggregate aggregator = do
  guard (is_ready aggregator) threshold_not_met
  ok (take aggregator.session.threshold aggregator.shares)

unfoldable pub all_shares : ShareAggregator → Result MultipartyError (List Share)
all_shares aggregator = do guard (is_ready aggregator) threshold_not_met; ok aggregator.shares
