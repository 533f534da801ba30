-- ===== src/Multiparty/Aggregator/Acceptance.antt =====
-- When a share is accepted, and what the aggregator is then.
use phantom_fhe.Base.{◌≡◌, sym, false, not, ok, ◌>>◌, guard, arith, >>-eq-ok, guard-eq-ok, ok_inj}
use phantom_fhe.Multiparty.Error.{duplicate_participant}
use phantom_fhe.Multiparty.Share.{Share, check_for_session}
use phantom_fhe.Multiparty.Aggregator.{ShareAggregator, contains_key, insert_share, add_share}

-- The aggregator with one more share.
unfoldable pub with_share : ShareAggregator → Share → ShareAggregator
with_share aggregator share = record {
  session = aggregator.session;
  kind = aggregator.kind;
  shares = insert_share share aggregator.shares;
}

pub add_share-accepted :
    (aggregator : ShareAggregator) (share : Share)
    → check_for_session share aggregator.session aggregator.kind ≡ ok tt
    → contains_key share.participant aggregator.shares ≡ false
    → add_share aggregator share ≡ ok (with_share aggregator share)
unfolding add_share with_share
add_share-accepted aggregator share valid new = rw (valid, new)

pub add_share-inverted :
    (aggregator after : ShareAggregator) (share : Share)
    → add_share aggregator share ≡ ok after
    → (check_for_session share aggregator.session aggregator.kind ≡ ok tt)
      × (contains_key share.participant aggregator.shares ≡ false)
      × (after ≡ with_share aggregator share)
unfolding add_share with_share
add_share-inverted aggregator after share e =
    let (valid, rest) =
      >>-eq-ok (check_for_session share aggregator.session aggregator.kind)
        (guard (not (contains_key share.participant aggregator.shares)) duplicate_participant
          >> ok (with_share aggregator share))
        e in
    let (free, last) =
      guard-eq-ok (not (contains_key share.participant aggregator.shares)) duplicate_participant
        (ok (with_share aggregator share)) rest in
    (valid, ground (arith, free), sym (ok_inj last))
