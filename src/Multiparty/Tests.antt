-- ===== src/Multiparty/Tests.antt =====
-- The properties of sessions, shares and aggregation at a session of three participants.
use phantom_fhe.Base.{
  ℕ, suc, ◌+◌, ◌-◌, ◌*◌, ◌/◌, ltb, if◌then◌else◌, some, none, u64_mod, ◌%◌, ◌^◌, ◌<◌, ◌≡◌, ◌⊎◌,
  refl, List, [], ◌∷◌, false, ok, err, All, length, get_or, arith,
}
use phantom_fhe.Multiparty.Error.{threshold_not_met}
use phantom_fhe.Multiparty.Participant.{
  ParticipantSet, elem, insert_sorted, sort_unstable, all_distinct, participant_set_new,
  binary_search, contains,
}
use phantom_fhe.Multiparty.Participant.Search.{IsAscending}
use phantom_fhe.Multiparty.Participant.Sorting.{participant_set_new_lem}
use phantom_fhe.Multiparty.Session.{
  ProtocolKind, SessionState, session_id_encode, protocol_tag, check_participant,
}
use phantom_fhe.Multiparty.ReplayGuard.{guard_new}
use phantom_fhe.Multiparty.ReplayGuard.Safety.{accepted, IsDistinct, accepted-IsDistinct}
use phantom_fhe.Multiparty.Share.{
  ShareKind, Share, share_tag, share_encode, share_decode, share_magic, check_for_session, kind_eq,
}
use phantom_fhe.Multiparty.Share.RoundTrip.{IsShare, share_decode-share_encode}
use phantom_fhe.Multiparty.Message.{
  TranscriptMessage, Transcript, message_encode, message_decode, message_magic,
}
use phantom_fhe.Multiparty.Message.RoundTrip.{IsMessage, message_decode-message_encode}
use phantom_fhe.Multiparty.Aggregator.{
  ShareAggregator, contains_key, insert_share, add_share, aggregate,
}
use phantom_fhe.Multiparty.Aggregator.Invariant.{
  IsOrdered, IsValid, IsAggregator, add_share-IsAggregator, aggregate_lem,
}
use phantom_fhe.Multiparty.Aggregator.Order.{add_share_comm}
use phantom_fhe.Multiparty.Payload.{aggregate_u64_shares_mod, decode_u64_payload, chunks_exact}
use phantom_fhe.Multiparty.Payload.Sums.{IsVector, entry_sum, aggregate_u64_shares_mod_lem}
use phantom_fhe.Multiparty.Masking.{sample_uniform_mod_t}
use phantom_fhe.Multiparty.Masking.Uniform.{
  accepted_words, first_residues, sample_uniform_mod_t_lem,
}
use phantom_fhe.Multiparty.Participant.{participant_id_encode}
use phantom_fhe.Multiparty.Wire.{encode_bytes}

abbrev three : ParticipantSet
three = record { participants = 2 ∷ 5 ∷ 7 ∷ [] }

three-made : participant_set_new (7 ∷ 2 ∷ 5 ∷ []) ≡ ok three
unfolding participant_set_new sort_unstable insert_sorted all_distinct elem
three-made = refl

participant_set_new_lem_example :
    IsAscending three.participants × ((p : ℕ) → contains three p ≡ elem p (7 ∷ 2 ∷ 5 ∷ []))
participant_set_new_lem_example = participant_set_new_lem (7 ∷ 2 ∷ 5 ∷ []) three three-made

abbrev session : SessionState
session = record {
  id = 11;
  protocol = ProtocolKind.galois_key_gen;
  participants = three;
  threshold = 2;
  round = 1;
}

accepted-IsDistinct_example : IsDistinct (accepted guard_new ((session, 2) ∷ (session, 2) ∷ []))
accepted-IsDistinct_example = accepted-IsDistinct ((session, 2) ∷ (session, 2) ∷ [])

-- The payload is one little-endian word.
abbrev share_of : ℕ → ℕ → Share
share_of participant value = record {
  session_id = 11;
  protocol = ProtocolKind.galois_key_gen;
  round = 1;
  participant = participant;
  kind = ShareKind.galois_key_gen;
  payload = value ∷ 0 ∷ 0 ∷ 0 ∷ 0 ∷ 0 ∷ 0 ∷ 0 ∷ [];
}

share_of-IsShare : IsShare (share_of 2 9)
unfolding protocol_tag share_tag share_encode share_magic session_id_encode participant_id_encode
    encode_bytes
share_of-IsShare = record {
  session_pos = omega arith;
  session_word = omega arith;
  protocol_word = omega arith;
  round_word = omega arith;
  participant_pos = omega arith;
  participant_word = omega arith;
  kind_word = omega arith;
  payload_pos = omega arith;
  payload_bound = omega arith;
}

share_decode-share_encode_example : share_decode (share_encode (share_of 2 9)) ≡ ok (share_of 2 9)
share_decode-share_encode_example = share_decode-share_encode (share_of 2 9) share_of-IsShare tt tt

abbrev message : TranscriptMessage
message = record {
  session_id = 11;
  protocol = ProtocolKind.galois_key_gen;
  round = 1;
  sender = 5;
  label = 65 ∷ [];
  payload = [];
}

message-IsMessage : IsMessage message
unfolding protocol_tag message_encode message_magic session_id_encode participant_id_encode
    encode_bytes
message-IsMessage = record {
  session_pos = omega arith;
  session_word = omega arith;
  protocol_word = omega arith;
  round_word = omega arith;
  sender_pos = omega arith;
  sender_word = omega arith;
  label_pos = omega arith;
  bounded = omega arith;
}

message_decode-message_encode_example : message_decode (message_encode message) ≡ ok message
message_decode-message_encode_example = message_decode-message_encode message message-IsMessage tt

abbrev transcript : Transcript
transcript = record { session = session; messages = [] }

abbrev one_share : ShareAggregator
one_share = record {
  session = session;
  kind = ShareKind.galois_key_gen;
  shares = share_of 2 9 ∷ [];
}

abbrev two_shares : ShareAggregator
two_shares = record {
  session = session;
  kind = ShareKind.galois_key_gen;
  shares = share_of 2 9 ∷ share_of 5 4 ∷ [];
}

abbrev other_two_shares : ShareAggregator
other_two_shares = record {
  session = session;
  kind = ShareKind.galois_key_gen;
  shares = share_of 2 9 ∷ share_of 7 6 ∷ [];
}

one_share-IsAggregator : IsAggregator one_share
unfolding check_for_session protocol_tag kind_eq check_participant contains binary_search
one_share-IsAggregator = record { ordered = (tt, tt); valid = (refl, tt) }

add_two : add_share one_share (share_of 5 4) ≡ ok two_shares
unfolding add_share contains_key insert_share check_for_session protocol_tag kind_eq
    check_participant contains binary_search
add_two = refl

add_other : add_share one_share (share_of 7 6) ≡ ok other_two_shares
unfolding add_share contains_key insert_share check_for_session protocol_tag kind_eq
    check_participant contains binary_search
add_other = refl

add_share-IsAggregator_example :
    IsAggregator two_shares
    × (length two_shares.shares ≡ suc (length one_share.shares))
    × IsValid session ShareKind.galois_key_gen (share_of 5 4)
    × (contains_key 5 one_share.shares ≡ false)
add_share-IsAggregator_example =
    add_share-IsAggregator one_share two_shares (share_of 5 4) one_share-IsAggregator add_two

add_share_comm_example :
    (after : ShareAggregator) × (add_share two_shares (share_of 7 6) ≡ ok after)
    × (add_share other_two_shares (share_of 5 4) ≡ ok after)
add_share_comm_example =
    add_share_comm one_share two_shares other_two_shares (share_of 5 4) (share_of 7 6)
      (ground arith) add_two add_other

aggregate_lem_example :
    ((length two_shares.shares < 2) × (aggregate two_shares ≡ err threshold_not_met))
    ⊎ ((shares : List Share) × (aggregate two_shares ≡ ok shares)
        × (length shares ≡ 2)
        × IsOrdered shares
        × All (IsValid session ShareKind.galois_key_gen) shares)
aggregate_lem_example = aggregate_lem two_shares add_share-IsAggregator_example.0

vectors : All (IsVector 1) (share_of 2 9 ∷ share_of 5 4 ∷ [])
unfolding decode_u64_payload chunks_exact
vectors = ((9 ∷ [], refl, refl), ((4 ∷ [], refl, refl), tt))

aggregate_u64_shares_mod_lem_example :
    (sum : List ℕ) × (aggregate_u64_shares_mod (share_of 2 9 ∷ share_of 5 4 ∷ []) 10 ≡ ok sum)
    × (length sum ≡ 1)
    × ((i : ℕ) → i < 1 → get_or sum i 0 ≡ entry_sum (share_of 2 9 ∷ share_of 5 4 ∷ []) i % 10)
aggregate_u64_shares_mod_lem_example =
    aggregate_u64_shares_mod_lem 10 1 (share_of 2 9 ∷ share_of 5 4 ∷ []) (omega arith) (omega arith)
      (omega arith) vectors

sample_uniform_mod_t_lem_example :
    (sample_uniform_mod_t 7 2 ((2 ^ 64 - 1) ∷ 12 ∷ 20 ∷ [])
      ≡ first_residues 7 2 (accepted_words 7 ((2 ^ 64 - 1) ∷ 12 ∷ 20 ∷ [])))
    × (sample_uniform_mod_t 7 1 ((3 * 7 + 5) ∷ [])
        ≡ (if ltb 3 ((u64_mod - 1) / 7) then some (5 ∷ []) else none))
sample_uniform_mod_t_lem_example =
    sample_uniform_mod_t_lem 7 2 5 3 ((2 ^ 64 - 1) ∷ 12 ∷ 20 ∷ []) (omega arith) (omega arith)
