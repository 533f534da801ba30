-- ===== src/Multiparty/Aggregator/Invariant.antt =====
-- The aggregator's invariant, that each accepted share keeps, and what an aggregate is.
use phantom_fhe.Base.{
  ℕ, zero, suc, ◌<◌, ◌≡◌, ◌⊎◌, inl, inr, refl, List, [], ◌∷◌, false, leb, ok, err, length, take,
  All, length-take, arith, Bool-cases, leb→le,
}
use phantom_fhe.Multiparty.Error.{threshold_not_met}
use phantom_fhe.Multiparty.Session.{SessionState}
use phantom_fhe.Multiparty.Share.{Share, ShareKind, check_for_session}
use phantom_fhe.Multiparty.Aggregator.Acceptance.{with_share, add_share-inverted}
use phantom_fhe.Multiparty.Aggregator.{
  ShareAggregator, contains_key, insert_share, add_share, is_ready, aggregate,
}

-- In strictly ascending order of the participants.
abbrev pub IsOrdered : List Share → Type 0
IsOrdered [] = Unit
IsOrdered (share ∷ rest) = All (λ s. share.participant < s.participant) rest × IsOrdered rest

abbrev pub IsValid : SessionState → ShareKind → Share → Type 0
IsValid session kind share = check_for_session share session kind ≡ ok tt

-- One share of a participant at most, and only shares that pass the session's checks.
pub record IsAggregator (aggregator : ShareAggregator) : Type 0 where
  pub ordered : IsOrdered aggregator.shares
  pub valid : All (IsValid aggregator.session aggregator.kind) aggregator.shares

insert_share-All :
    (P : Share → Type 0) (share : Share) (shares : List Share)
    → P share
    → All P shares
    → All P (insert_share share shares)
unfolding insert_share
insert_share-All P share [] h all = (h, tt)
insert_share-All P share (other ∷ rest) h all =
    ground (arith, h, all, insert_share-All P share rest h)

All-below :
    (a b : ℕ) (shares : List Share)
    → a < b
    → All (λ s. b < s.participant) shares
    → All (λ s. a < s.participant) shares
All-below a b [] l h = tt
All-below a b (s ∷ rest) l h = (omega (arith, h.0), All-below a b rest l h.1)

insert_share-IsOrdered :
    (share : Share) (shares : List Share)
    → IsOrdered shares
    → contains_key share.participant shares ≡ false
    → IsOrdered (insert_share share shares)
      × (length (insert_share share shares) ≡ suc (length shares))
unfolding insert_share contains_key
insert_share-IsOrdered share [] h new = ((tt, tt), refl)
insert_share-IsOrdered share (other ∷ rest) h new = ground (
  arith,
  h,
  new,
  All-below share.participant other.participant rest,
  insert_share-All (λ s. other.participant < s.participant) share rest,
  insert_share-IsOrdered share rest h.1,
)

-- Where a share is accepted by an aggregator in strict order of participants with only valid
-- shares, the aggregator afterwards is again such a one and has one share more; the share passes
-- the session's checks and its participant had none yet.
pub add_share-IsAggregator :
    (aggregator after : ShareAggregator) (share : Share)
    → IsAggregator aggregator
    → add_share aggregator share ≡ ok after
    → IsAggregator after
      × (length after.shares ≡ suc (length aggregator.shares))
      × IsValid aggregator.session aggregator.kind share
      × (contains_key share.participant aggregator.shares ≡ false)
unfolding with_share
add_share-IsAggregator aggregator after share h e =
    let (valid, new, same) = add_share-inverted aggregator after share e in
    let (ordered, longer) = insert_share-IsOrdered share aggregator.shares h.ordered new in
    rw (same, with_share)
      (
        record {
          ordered = ordered;
          valid = insert_share-All _ share aggregator.shares valid h.valid;
        },
        longer,
        valid,
        new,
      )

take-All : (P : Share → Type 0) (n : ℕ) (xs : List Share) → All P xs → All P (take n xs)
take-All P zero xs h = tt
take-All P (suc n) [] h = tt
take-All P (suc n) (x ∷ xs) h = (h.0, take-All P n xs h.1)

take-IsOrdered : (n : ℕ) (xs : List Share) → IsOrdered xs → IsOrdered (take n xs)
take-IsOrdered zero xs h = tt
take-IsOrdered (suc n) [] h = tt
take-IsOrdered (suc n) (x ∷ xs) h = (take-All _ n xs h.0, take-IsOrdered n xs h.1)

-- For an aggregator in strict order of participants with only valid shares: with fewer shares than
-- the threshold the aggregate is refused, and else it is exactly as many shares as the threshold,
-- in strictly ascending order of participants, which all pass the session's checks.
pub aggregate_lem :
    (aggregator : ShareAggregator)
    → IsAggregator aggregator
    → ((length aggregator.shares < aggregator.session.threshold)
        × (aggregate aggregator ≡ err threshold_not_met))
      ⊎ ((shares : List Share) × (aggregate aggregator ≡ ok shares)
          × (length shares ≡ aggregator.session.threshold)
          × IsOrdered shares
          × All (IsValid aggregator.session aggregator.kind) shares)
unfolding aggregate is_ready
aggregate_lem aggregator h =
    elim (Bool-cases (leb aggregator.session.threshold (length aggregator.shares))) [
      | inl e ↦ inr (
        take aggregator.session.threshold aggregator.shares,
        rw e refl,
        omega (arith, leb→le _ _ e, length-take aggregator.session.threshold aggregator.shares),
        take-IsOrdered _ _ h.ordered,
        take-All _ _ _ h.valid,
      )
      | inr e ↦ inl (ground (arith, e), rw e refl)
    ]
