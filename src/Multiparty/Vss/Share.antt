-- ===== src/Multiparty/Vss/Share.antt =====
-- crates/phantom-multiparty/src/vss/share.rs: a dealer's share and its verification.
use phantom_fhe.Base.{List, [], ◌∷◌, ◌++◌, not, ◌==◌, Result, ok, ◌>>=◌, ◌>>◌, guard, ok_or, length}
use phantom_fhe.Multiparty.Error.{
  MultipartyError, invalid_parameters, malformed_message, invalid_vss_share,
}
use phantom_fhe.Multiparty.Participant.{ParticipantId}
use phantom_fhe.Multiparty.Vss.{Curve, CompressedPoint, PedersenGenerators, vector_len}
use phantom_fhe.Multiparty.Vss.Commitments.{VssCommitmentSet}

pub record VssShare (S : Type 0) : Type 0 where
  pub dealer : ParticipantId
  pub recipient : ParticipantId
  pub values : List S
  pub blinding : S

module _ (c : Curve) where
  open c use {Scalar, Point, one, times, scalar_from, point_eq, vartime_multiscalar_mul, decompress}

  -- The scalars and the points of the right side, from the power `power` on.
  unfoldable pub weigh_commitments :
      Scalar → Scalar → List CompressedPoint → Result MultipartyError (List Scalar × List Point)
  weigh_commitments x power [] = ok ([], [])
  weigh_commitments x power (commitment ∷ rest) = do
    point ← ok_or (decompress commitment) malformed_message
    (scalars, points) ← weigh_commitments x (times power x) rest
    ok (power ∷ scalars, point ∷ points)

  unfoldable pub verify_equation :
      Scalar
      → List Scalar
      → Scalar
      → List CompressedPoint
      → PedersenGenerators Point
      → Result MultipartyError (Unit {0})
  verify_equation x values blinding commitments generators = do
    guard (length values == vector_len generators) invalid_parameters
    guard (not (length commitments == 0)) invalid_parameters
    (scalars, points) ← weigh_commitments x one commitments
    guard
        (point_eq
          (vartime_multiscalar_mul (values ++ (blinding ∷ []))
            (generators.g ++ (generators.h ∷ [])))
          (vartime_multiscalar_mul scalars points))
        invalid_vss_share

  unfoldable pub verify :
      VssShare Scalar
      → VssCommitmentSet
      → PedersenGenerators Point
      → Result MultipartyError (Unit {0})
  verify share commitments generators = do
    guard (share.dealer == commitments.dealer) invalid_vss_share
    verify_equation (scalar_from share.recipient) share.values share.blinding
        commitments.commitments generators

  unfoldable pub verify_combined :
      ParticipantId
      → List Scalar
      → Scalar
      → List CompressedPoint
      → PedersenGenerators Point
      → Result MultipartyError (Unit {0})
  verify_combined participant values blinding combined_commitments generators =
      verify_equation (scalar_from participant) values blinding combined_commitments generators
