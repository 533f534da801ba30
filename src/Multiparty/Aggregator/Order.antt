-- ===== src/Multiparty/Aggregator/Order.antt =====
-- The order in which two participants' shares arrive does not matter.
use phantom_fhe.Base.{◌≡◌, ◌≢◌, sym, ap, ◌∙◌, List, [], ◌∷◌, ok, arith}
use phantom_fhe.Multiparty.Share.{Share}
use phantom_fhe.Multiparty.Aggregator.Acceptance.{
  with_share, add_share-accepted, add_share-inverted,
}
use phantom_fhe.Multiparty.Aggregator.{ShareAggregator, contains_key, insert_share, add_share}

insert_share_comm :
    (a b : Share) (shares : List Share)
    → a.participant ≢ b.participant
    → insert_share a (insert_share b shares) ≡ insert_share b (insert_share a shares)
unfolding insert_share
insert_share_comm a b [] ne = ground (arith, ne)
insert_share_comm a b (s ∷ rest) ne = ground (arith, ne, insert_share_comm a b rest ne)

contains_key-insert_share :
    (a b : Share) (shares : List Share)
    → a.participant ≢ b.participant
    → contains_key b.participant (insert_share a shares) ≡ contains_key b.participant shares
unfolding contains_key insert_share
contains_key-insert_share a b [] ne = ground (arith, ne)
contains_key-insert_share a b (s ∷ rest) ne =
    ground (arith, ne, contains_key-insert_share a b rest ne)

-- Two shares of different participants that an aggregator would each accept are both accepted in
-- either order, and the aggregator is the same in the end.
pub add_share_comm :
    (aggregator with_a with_b : ShareAggregator) (a b : Share)
    → a.participant ≢ b.participant
    → add_share aggregator a ≡ ok with_a
    → add_share aggregator b ≡ ok with_b
    → (after : ShareAggregator) × (add_share with_a b ≡ ok after) × (add_share with_b a ≡ ok after)
unfolding with_share
add_share_comm aggregator with_a with_b a b ne ea eb =
    let (valid_a, new_a, same_a) = add_share-inverted aggregator with_a a ea in
    let (valid_b, new_b, same_b) = add_share-inverted aggregator with_b b eb in
    let keys = contains_key-insert_share a b aggregator.shares ne in
    let keys_a = contains_key-insert_share b a aggregator.shares (λ e. ne (sym e)) in
    (
      with_share with_a b,
      rw same_a (add_share-accepted (with_share aggregator a) b valid_b (keys ∙ new_b)),
      rw (same_a, same_b)
          (add_share-accepted (with_share aggregator b) a valid_a (keys_a ∙ new_a)
            ∙ ap
                (λ (t : List Share).
                  ok record { session = aggregator.session; kind = aggregator.kind; shares = t })
                (insert_share_comm a b aggregator.shares ne)),
    )
