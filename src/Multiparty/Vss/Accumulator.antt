-- ===== src/Multiparty/Vss/Accumulator.antt =====
-- crates/phantom-multiparty/src/vss/share.rs: `ShareAccumulator`. A call that fails can still have
-- changed the accumulator, so a call returns its result and the accumulator after it.
use phantom_fhe.Base.{
  ℕ, List, [], ◌∷◌, not, ◌==◌, if◌then◌else◌, Result, ok, err, panic, length, replicate,
}
use phantom_fhe.Multiparty.Error.{
  MultipartyError, invalid_parameters, unknown_participant, duplicate_participant,
}
use phantom_fhe.Multiparty.Participant.{ParticipantId, elem}
use phantom_fhe.Multiparty.Vss.{Curve, PedersenGenerators}
use phantom_fhe.Multiparty.Vss.Commitments.{VssCommitmentSet}
use phantom_fhe.Multiparty.Vss.Share.{VssShare, verify}

-- The set of dealers is a list without duplicates, the newest first.
pub record ShareAccumulator (S : Type 0) : Type 0 where
  pub participant : ParticipantId
  pub sum_values : List S
  pub sum_blinding : S
  pub dealers_seen : List ParticipantId

unfoldable pub dealer_count : {S : Type 0} → ShareAccumulator S → ℕ
dealer_count accumulator = length accumulator.dealers_seen

unfoldable pub finalize : {S : Type 0} → ShareAccumulator S → List S × S
finalize accumulator = (accumulator.sum_values, accumulator.sum_blinding)

-- `dealers_seen.insert(dealer)` of a dealer that is not there.
unfoldable pub see_dealer : {S : Type 0} → ShareAccumulator S → ParticipantId → ShareAccumulator S
see_dealer accumulator dealer = record {
  participant = accumulator.participant;
  sum_values = accumulator.sum_values;
  sum_blinding = accumulator.sum_blinding;
  dealers_seen = dealer ∷ accumulator.dealers_seen;
}

module _ (c : Curve) where
  open c use {Scalar, Point, zero, plus}

  unfoldable pub accumulator_new : ParticipantId → ℕ → ShareAccumulator Scalar
  accumulator_new participant vector_len = record {
    participant = participant;
    sum_values = replicate vector_len zero;
    sum_blinding = zero;
    dealers_seen = [];
  }

  -- `for (accumulated, value) in sum.iter_mut().zip(values) { *accumulated += value; }`
  unfoldable pub add_values : List Scalar → List Scalar → List Scalar
  add_values [] values = []
  add_values (accumulated ∷ sum) [] = accumulated ∷ sum
  add_values (accumulated ∷ sum) (value ∷ values) = plus accumulated value ∷ add_values sum values

  unfoldable pub accumulate_share :
      ShareAccumulator Scalar → VssShare Scalar → ShareAccumulator Scalar
  accumulate_share accumulator share = record {
    participant = accumulator.participant;
    sum_values = add_values accumulator.sum_values share.values;
    sum_blinding = plus accumulator.sum_blinding share.blinding;
    dealers_seen = accumulator.dealers_seen;
  }

  -- After the verification, whose dealer has been seen whatever it says.
  unfoldable pub after_verify :
      ShareAccumulator Scalar
      → VssShare Scalar
      → Result MultipartyError (Unit {0})
      → Result MultipartyError (Unit {0}) × ShareAccumulator Scalar
  after_verify seen share (ok done) = (ok tt, accumulate_share seen share)
  after_verify seen share (err e) = (err e, seen)
  after_verify seen share panic = (panic, seen)

  unfoldable pub add_verified_share :
      ShareAccumulator Scalar
      → VssShare Scalar
      → VssCommitmentSet
      → PedersenGenerators Point
      → Result MultipartyError (Unit {0}) × ShareAccumulator Scalar
  add_verified_share accumulator share commitments generators =
      if not (share.recipient == accumulator.participant)
      then (err unknown_participant, accumulator)
      else if not (length share.values == length accumulator.sum_values)
      then (err invalid_parameters, accumulator)
      else if elem share.dealer accumulator.dealers_seen
      then (err duplicate_participant, accumulator)
      else after_verify (see_dealer accumulator share.dealer) share
          (verify c share commitments generators)
