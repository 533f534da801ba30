-- ===== src/Multiparty/Vss/Accepting.antt =====
-- What a call of `add_verified_share` does on each path.
use phantom_fhe.Base.{
  ◌≡◌, ◌≢◌, refl, sym, ap, ◌∙◌, ◌⊎◌, ◌==◌, ==_iff, false, Bool-cases, inl, inr, ok, err, panic,
  Result, length, arith,
}
use phantom_fhe.Multiparty.Error.{
  MultipartyError, invalid_parameters, unknown_participant, duplicate_participant,
}
use phantom_fhe.Multiparty.Participant.{elem}
use phantom_fhe.Multiparty.Vss.{Curve, PedersenGenerators}
use phantom_fhe.Multiparty.Vss.Commitments.{VssCommitmentSet}
use phantom_fhe.Multiparty.Vss.Share.{VssShare, verify}
use phantom_fhe.Multiparty.Vss.Accumulator.{
  ShareAccumulator, finalize, add_values, accumulate_share, see_dealer, after_verify,
  add_verified_share,
}

module _ (c : Curve) where
  open c use {Scalar, Point, plus}

  -- The checks before the dealer is recorded.
  pub record IsAdmitted (accumulator : ShareAccumulator Scalar) (share : VssShare Scalar)
      : Type 0 where
    pub addressed : share.recipient ≡ accumulator.participant
    pub sized : length share.values ≡ length accumulator.sum_values
    pub fresh : elem share.dealer accumulator.dealers_seen ≡ false

  -- A share that passes the checks is judged by `verify`, any other leaves the accumulator alone.
  pub add_verified_share-cases :
      (accumulator : ShareAccumulator Scalar) (share : VssShare Scalar) (set : VssCommitmentSet)
      (generators : PedersenGenerators Point)
      → (IsAdmitted accumulator share
          × (add_verified_share c accumulator share set generators
              ≡ after_verify c
                  (see_dealer accumulator share.dealer)
                  share
                  (verify c share set generators)))
        ⊎ ((e : MultipartyError) × (add_verified_share c accumulator share set generators
              ≡ (err e, accumulator)))
  unfolding add_verified_share
  add_verified_share-cases accumulator share set generators =
      elim (Bool-cases (share.recipient == accumulator.participant)) [
        | inr e ↦ inr (unknown_participant, rw e refl)
        | inl e ↦ elim (Bool-cases (length share.values == length accumulator.sum_values)) [
          | inr f ↦ inr (invalid_parameters, rw (e, f) refl)
          | inl f ↦ elim (Bool-cases (elem share.dealer accumulator.dealers_seen)) [
            | inl g ↦ inr (duplicate_participant, rw (e, f, g) refl)
            | inr g ↦ inl (
              record { addressed = (==_iff _ _).0 e; sized = (==_iff _ _).0 f; fresh = g },
              rw (e, f, g) refl,
            )
          ]
        ]
      ]

  -- What an accepted share shows.
  pub record IsAccepted (accumulator : ShareAccumulator Scalar) (share : VssShare Scalar)
      (set : VssCommitmentSet) (generators : PedersenGenerators Point)
      (next : ShareAccumulator Scalar) : Type 0 where
    pub admitted : IsAdmitted accumulator share
    pub verified : verify c share set generators ≡ ok tt
    pub result : next ≡ accumulate_share c (see_dealer accumulator share.dealer) share

  abbrev Outcome : Type 0
  Outcome = Result MultipartyError (Unit {0}) × ShareAccumulator Scalar

  after_verify-ok :
      (seen : ShareAccumulator Scalar) (share : VssShare Scalar)
      (r : Result MultipartyError (Unit {0})) (next : ShareAccumulator Scalar)
      → after_verify c seen share r ≡ (ok tt, next)
      → (r ≡ ok tt) × (next ≡ accumulate_share c seen share)
  unfolding after_verify
  after_verify-ok seen share (ok done) next h = (refl, sym (ap (λ (o : Outcome). o.1) h))
  after_verify-ok seen share (err e) next h = absurd (ground (arith, ap (λ (o : Outcome). o.0) h))
  after_verify-ok seen share panic next h = absurd (ground (arith, ap (λ (o : Outcome). o.0) h))

  pub add_verified_share-IsAccepted :
      (accumulator : ShareAccumulator Scalar) (share : VssShare Scalar) (set : VssCommitmentSet)
      (generators : PedersenGenerators Point) (next : ShareAccumulator Scalar)
      → add_verified_share c accumulator share set generators ≡ (ok tt, next)
      → IsAccepted accumulator share set generators next
  add_verified_share-IsAccepted accumulator share set generators next h =
      elim (add_verified_share-cases accumulator share set generators) [
        | inr (e, refused) ↦ absurd (ground (arith, ap (λ (o : Outcome). o.0) (sym refused ∙ h)))
        | inl (admitted, judged) ↦
            let (verified, result) =
              after_verify-ok (see_dealer accumulator share.dealer) share _ next (sym judged ∙ h) in
            record { admitted = admitted; verified = verified; result = result }
      ]

  after_verify-finalize :
      (seen : ShareAccumulator Scalar) (share : VssShare Scalar)
      (r : Result MultipartyError (Unit {0}))
      → (((after_verify c seen share r).0 ≡ ok tt)
          × (r ≡ ok tt)
          × (finalize (after_verify c seen share r).1
              ≡ (add_values c seen.sum_values share.values, plus seen.sum_blinding share.blinding)))
        ⊎ (((after_verify c seen share r).0 ≢ ok tt)
            × (finalize (after_verify c seen share r).1 ≡ finalize seen))
  unfolding after_verify accumulate_share finalize
  after_verify-finalize seen share (ok done) = inl (refl, refl, refl)
  after_verify-finalize seen share (err e) = inr ((λ h. ground (arith, h)), refl)
  after_verify-finalize seen share panic = inr ((λ h. ground (arith, h)), refl)

  -- A call of `add_verified_share` either succeeds on a share for this participant that verifies,
  -- and adds its values and its blinding to the sums, or it does not succeed and leaves the sums
  -- as they were.
  pub add_verified_share-finalize :
      (accumulator : ShareAccumulator Scalar) (share : VssShare Scalar) (set : VssCommitmentSet)
      (generators : PedersenGenerators Point)
      → (((add_verified_share c accumulator share set generators).0 ≡ ok tt)
          × (share.recipient ≡ accumulator.participant)
          × (verify c share set generators ≡ ok tt)
          × (finalize (add_verified_share c accumulator share set generators).1 ≡ (
            add_values c accumulator.sum_values share.values,
            plus accumulator.sum_blinding share.blinding,
          )))
        ⊎ (((add_verified_share c accumulator share set generators).0 ≢ ok tt)
            × (finalize (add_verified_share c accumulator share set generators).1
                ≡ finalize accumulator))
  unfolding see_dealer finalize
  add_verified_share-finalize accumulator share set generators =
      elim (add_verified_share-cases accumulator share set generators) [
        | inr (e, refused) ↦ rw refused (inr ((λ h. ground (arith, h)), refl))
        | inl (admitted, judged) ↦
            rw judged
              (elim (after_verify-finalize (see_dealer accumulator share.dealer) share
                (verify c share set generators)) [
                  | inl (accepted, verified, sums) ↦
                      inl (accepted, admitted.addressed, verified, sums)
                  | inr unchanged ↦ inr unchanged
                ])
      ]

  -- For a share that passes an accumulator's checks and fails verification: the call returns the
  -- verification's error, the sums stay as they were, and every later share of that dealer with
  -- the right recipient and size is refused as a duplicate.
  pub failed_share_lem :
      (accumulator : ShareAccumulator Scalar) (share : VssShare Scalar) (set : VssCommitmentSet)
      (generators : PedersenGenerators Point) (e : MultipartyError) (later : VssShare Scalar)
      (set' : VssCommitmentSet)
      → IsAdmitted accumulator share
      → verify c share set generators ≡ err e
      → later.dealer ≡ share.dealer
      → later.recipient ≡ accumulator.participant
      → length later.values ≡ length accumulator.sum_values
      → (next : ShareAccumulator Scalar) × (add_verified_share c accumulator share set generators
          ≡ (err e, next))
        × (finalize next ≡ finalize accumulator)
        × (add_verified_share c next later set' generators ≡ (err duplicate_participant, next))
  unfolding add_verified_share see_dealer after_verify finalize elem
  failed_share_lem accumulator share set generators e later set' h failed same addressed sized = (
    see_dealer accumulator share.dealer,
    rw
        (
          (==_iff share.recipient accumulator.participant).1 h.addressed,
          (==_iff (length share.values) (length accumulator.sum_values)).1 h.sized,
          h.fresh,
          failed,
        )
        refl,
    refl,
    rw
        (
          (==_iff later.recipient accumulator.participant).1 addressed,
          (==_iff (length later.values) (length accumulator.sum_values)).1 sized,
          (==_iff later.dealer share.dealer).1 same,
        )
        refl,
  )
