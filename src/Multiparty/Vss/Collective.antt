-- ===== src/Multiparty/Vss/Collective.antt =====
-- A participant's accumulated share verifies against the combined commitments of the dealers.
use phantom_fhe.Base.{
  ℕ, ◌≡◌, refl, sym, ◌∙◌, ◌≢◌, subst, List, [], ◌∷◌, map, ◌==◌, ==_iff, ok, guard-eq-ok, length,
  length-map, length-replicate, All, arith,
}
use phantom_fhe.Multiparty.Participant.{ParticipantId}
use phantom_fhe.Multiparty.Vss.{Curve, CompressedPoint, PedersenGenerators, vector_len}
use phantom_fhe.Multiparty.Vss.Commitments.{
  VssCommitmentSet, decompress_all, add_set, add_sets, combine,
}
use phantom_fhe.Multiparty.Vss.Share.{VssShare, verify, verify_combined}
use phantom_fhe.Multiparty.Vss.Accumulator.{
  ShareAccumulator, accumulator_new, finalize, accumulate_share, see_dealer, add_verified_share,
}
use phantom_fhe.Multiparty.Vss.Laws.{CurveLaws}
use phantom_fhe.Multiparty.Vss.Opening.{
  Opens, IsVerified, verify_equation_complete, verify_equation_sound,
}
use phantom_fhe.Multiparty.Vss.Combining.{
  length-add_values, add_points, length-add_points, decompress_all-length, add_commitments_lem,
  add_values-Opens, zeros-Opens,
}
use phantom_fhe.Multiparty.Vss.Accepting.{IsAccepted, add_verified_share-IsAccepted}

module _ (c : Curve) (generators : PedersenGenerators c.Point) where
  open c use {Scalar, Point}

  -- A run of successful calls, one for each share and the commitment set it comes with.
  pub data Accepts
      : ShareAccumulator Scalar
        → List (VssShare Scalar × VssCommitmentSet)
        → ShareAccumulator Scalar
        → Type 0 where
    no_more : {accumulator : ShareAccumulator Scalar} → Accepts accumulator [] accumulator
    accept :
        {accumulator middle last : ShareAccumulator Scalar} {share : VssShare Scalar}
        {set : VssCommitmentSet} {rest : List (VssShare Scalar × VssCommitmentSet)}
        → add_verified_share c accumulator share set generators ≡ (ok tt, middle)
        → Accepts middle rest last
        → Accepts accumulator ((share, set) ∷ rest) last

  abbrev pub sets : List (VssShare Scalar × VssCommitmentSet) → List VssCommitmentSet
  sets [] = []
  sets ((share, set) ∷ rest) = set ∷ sets rest

  module _ (laws : CurveLaws c) where
    verify-IsVerified :
        (share : VssShare Scalar) (set : VssCommitmentSet)
        → verify c share set generators ≡ ok tt
        → IsVerified c laws
            (c.scalar_from share.recipient)
            share.values
            share.blinding
            set.commitments
            generators
    unfolding verify
    verify-IsVerified share set h =
        let (e, equation) = guard-eq-ok (share.dealer == set.dealer) _ _ h in
        verify_equation_sound c laws _ _ _ _ generators equation

    -- A share for the participant is verified at the participant's own point.
    at_participant :
        (participant : ParticipantId) (accumulator : ShareAccumulator Scalar)
        (share : VssShare Scalar) (set : VssCommitmentSet) (after : ShareAccumulator Scalar)
        → accumulator.participant ≡ participant
        → IsAccepted c accumulator share set generators after
        → IsVerified c laws
            (c.scalar_from participant)
            share.values
            share.blinding
            set.commitments
            generators
    at_participant participant accumulator share set after owner a =
        subst
          (λ (p : ParticipantId).
            IsVerified c laws (c.scalar_from p) share.values share.blinding set.commitments
              generators)
          (a.admitted.addressed ∙ owner) (verify-IsVerified share set a.verified)

    -- The sums so far open the points so far.
    record Holds (participant : ParticipantId) (accumulator : ShareAccumulator Scalar)
        (points : List Point) : Type 0 where
      pub owner : accumulator.participant ≡ participant
      pub sized : length accumulator.sum_values ≡ vector_len generators
      pub opens :
          Opens c laws
            (c.scalar_from participant)
            accumulator.sum_values
            accumulator.sum_blinding
            generators
            points

    Holds-accept :
        (participant : ParticipantId) (accumulator after : ShareAccumulator Scalar)
        (share : VssShare Scalar) (set : VssCommitmentSet) (points : List Point)
        → length set.commitments ≡ length points
        → Holds participant accumulator points
        → add_verified_share c accumulator share set generators ≡ (ok tt, after)
        → (points' : List Point) × (add_set c points set ≡ ok points')
          × (length points' ≡ length points)
          × Holds participant after points'
    unfolding add_set accumulate_share see_dealer
    Holds-accept participant accumulator after share set points e h accepted =
        let a = add_verified_share-IsAccepted c accumulator share set generators after accepted in
        let v = at_participant participant accumulator share set after h.owner a in
        let size : length points ≡ length v.points =
          omega (arith, e, decompress_all-length c set.commitments v.points v.decompressed) in
        (
          add_points c points v.points,
          rw ((==_iff _ _).1 e)
              (add_commitments_lem c points v.points set.commitments (sym e) v.decompressed),
          length-add_points c points v.points,
          subst
              (λ (acc : ShareAccumulator Scalar).
                Holds participant acc (add_points c points v.points))
              (sym a.result)
              (record {
                owner = h.owner;
                sized = length-add_values c accumulator.sum_values share.values ∙ h.sized;
                opens =
                    add_values-Opens c laws generators (c.scalar_from participant)
                      accumulator.sum_values share.values accumulator.sum_blinding share.blinding
                      points v.points h.sized v.sized size h.opens v.opens;
              }),
        )

    Holds-add_sets :
        (participant : ParticipantId) (accumulator last : ShareAccumulator Scalar)
        (pairs : List (VssShare Scalar × VssCommitmentSet)) (points : List Point)
        → All (λ pair. length pair.1.commitments ≡ length points) pairs
        → Holds participant accumulator points
        → Accepts accumulator pairs last
        → (points' : List Point) × (add_sets c points (sets pairs) ≡ ok points')
          × (length points' ≡ length points)
          × Holds participant last points'
    unfolding add_sets
    Holds-add_sets participant accumulator last pairs points all h no_more = (points, refl, refl, h)
    Holds-add_sets participant accumulator last ((share, set) ∷ rest) points all h
          (accept first run) =
        let (points', added, size, held) =
          Holds-accept participant accumulator _ share set points all.0 h first in
        let (points'', others, size', end) =
          Holds-add_sets participant _ last rest points'
            (subst
              (λ (n : ℕ).
                All (λ (pair : VssShare Scalar × VssCommitmentSet). length pair.1.commitments ≡ n)
                  rest)
              (sym size) all.1)
            held run in
        (points'', rw added others, size' ∙ size, end)

    compress-decompress : (ps : List Point) → decompress_all c (map c.compress ps) ≡ ok ps
    unfolding decompress_all
    compress-decompress [] = refl
    compress-decompress (p ∷ ps) = rw (laws.decompress_compress p, compress-decompress ps) refl

    Holds-first :
        (participant : ParticipantId) (share : VssShare Scalar) (set : VssCommitmentSet)
        (after : ShareAccumulator Scalar)
        → add_verified_share c
            (accumulator_new c participant (vector_len generators))
            share
            set
            generators
          ≡ (ok tt, after)
        → (points : List Point) × (decompress_all c set.commitments ≡ ok points)
          × (length set.commitments ≢ 0)
          × Holds participant after points
    unfolding accumulator_new accumulate_share see_dealer
    Holds-first participant share set after accepted =
        let start = accumulator_new c participant (vector_len generators) in
        let a = add_verified_share-IsAccepted c start share set generators after accepted in
        let v = at_participant participant start share set after refl a in
        (
          v.points,
          v.decompressed,
          v.nonempty,
          subst (λ (acc : ShareAccumulator Scalar). Holds participant acc v.points) (sym a.result)
              (record {
                owner = refl;
                sized =
                    length-add_values c start.sum_values share.values
                    ∙ length-replicate (vector_len generators) c.zero;
                opens =
                    zeros-Opens c laws generators (c.scalar_from participant) share.values
                      share.blinding v.points v.sized v.opens;
              }),
        )

    -- For a new accumulator of the generators' size and a run of successful calls of
    -- `add_verified_share` on it, of one share at least, with commitment sets that all have as
    -- many degrees as the first: `combine` of the sets succeeds, and what `finalize` returns
    -- passes `verify_combined` against it.
    pub verify_combined-finalize :
        (participant : ParticipantId) (share : VssShare Scalar) (set : VssCommitmentSet)
        (rest : List (VssShare Scalar × VssCommitmentSet)) (last : ShareAccumulator Scalar)
        → Accepts (accumulator_new c participant (vector_len generators)) ((share, set) ∷ rest) last
        → All (λ pair. length pair.1.commitments ≡ length set.commitments) rest
        → (combined : List CompressedPoint) × (combine c (set ∷ sets rest) ≡ ok combined)
          × (verify_combined c participant (finalize last).0 (finalize last).1 combined generators
              ≡ ok tt)
    unfolding combine verify_combined finalize
    verify_combined-finalize participant share set rest last (accept first run) all =
        let (points, decompressed, some_degree, held) = Holds-first participant share set _ first in
        let size = decompress_all-length c set.commitments points decompressed in
        let (points', added, size', end) =
          Holds-add_sets participant _ last rest points
            (subst
              (λ (n : ℕ).
                All (λ (pair : VssShare Scalar × VssCommitmentSet). length pair.1.commitments ≡ n)
                  rest)
              (sym size) all)
            held run in
        (
          map c.compress points',
          rw (decompressed, added) refl,
          verify_equation_complete c laws (c.scalar_from participant) last.sum_values
              last.sum_blinding (map c.compress points') generators
              (record {
                points = points';
                sized = end.sized;
                nonempty =
                    λ z. some_degree (omega (arith, z, size, size', length-map points' c.compress));
                decompressed = compress-decompress points';
                opens = end.opens;
              }),
        )
