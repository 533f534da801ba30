-- ===== src/Multiparty/Vss/Commitments.antt =====
-- crates/phantom-multiparty/src/vss/share.rs: the commitment sets of dealers and their sum.
use phantom_fhe.Base.{
  List, [], ◌∷◌, map, ◌==◌, Result, ok, err, ◌>>=◌, ◌>>◌, guard, ok_or, length, ℕ,
}
use phantom_fhe.Multiparty.Error.{
  MultipartyError, invalid_parameters, missing_share, malformed_message,
}
use phantom_fhe.Multiparty.Participant.{ParticipantId}
use phantom_fhe.Multiparty.Vss.{Curve, CompressedPoint}

pub record VssCommitmentSet : Type 0 where
  pub dealer : ParticipantId
  pub commitments : List CompressedPoint

unfoldable pub commitment_threshold : VssCommitmentSet → ℕ
commitment_threshold set = length set.commitments

module _ (c : Curve) where
  open c use {Point, plus_points, compress, decompress}

  unfoldable pub decompress_all : List CompressedPoint → Result MultipartyError (List Point)
  decompress_all [] = ok []
  decompress_all (commitment ∷ rest) = do
    point ← ok_or (decompress commitment) malformed_message
    points ← decompress_all rest
    ok (point ∷ points)

  -- `for (acc, c) in combined.iter_mut().zip(&set.commitments) { *acc += c.decompress()?; }`
  unfoldable pub add_commitments :
      List Point → List CompressedPoint → Result MultipartyError (List Point)
  add_commitments [] commitments = ok []
  add_commitments (acc ∷ combined) [] = ok (acc ∷ combined)
  add_commitments (acc ∷ combined) (commitment ∷ rest) = do
    point ← ok_or (decompress commitment) malformed_message
    points ← add_commitments combined rest
    ok (plus_points acc point ∷ points)

  unfoldable pub add_set : List Point → VssCommitmentSet → Result MultipartyError (List Point)
  add_set combined set = do
    guard (length set.commitments == length combined) invalid_parameters
    add_commitments combined set.commitments

  unfoldable pub add_sets : List Point → List VssCommitmentSet → Result MultipartyError (List Point)
  add_sets combined [] = ok combined
  add_sets combined (set ∷ sets) = do points ← add_set combined set; add_sets points sets

  unfoldable pub combine : List VssCommitmentSet → Result MultipartyError (List CompressedPoint)
  combine [] = err missing_share
  combine (first ∷ sets) = do
    start ← decompress_all first.commitments
    combined ← add_sets start sets
    ok (map compress combined)
