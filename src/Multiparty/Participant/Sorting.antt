-- ===== src/Multiparty/Participant/Sorting.antt =====
-- The participant set is its members in ascending order, without repetition.
use phantom_fhe.Base.{
  ℕ, ◌≤◌, ◌<◌, ◌≡◌, refl, sym, ◌∙◌, ap, List, [], ◌∷◌, Bool, true, false, not, ◌||◌, ◌==◌, leb, All,
  arith, Bool-cases, inl, inr, Result, ok, length, guard-eq-ok, ◌>>◌, guard,
}
use phantom_fhe.Multiparty.Error.{MultipartyError, invalid_parameters, duplicate_participant}
use phantom_fhe.Multiparty.Participant.{
  ParticipantSet, elem, insert_sorted, sort_unstable, all_distinct, participant_set_new, contains,
  binary_search,
}
use phantom_fhe.Multiparty.Participant.Search.{
  IsAscending, search_sound, search_complete, elem-place,
}

IsSorted : List ℕ → Type 0
IsSorted [] = Unit
IsSorted (x ∷ xs) = All (λ y. x ≤ y) xs × IsSorted xs

All-mono : (a b : ℕ) (xs : List ℕ) → a ≤ b → All (λ y. b ≤ y) xs → All (λ y. a ≤ y) xs
All-mono a b [] h k = tt
All-mono a b (x ∷ xs) h k = (omega (arith, h, k.0), All-mono a b xs h k.1)

insert_sorted-above :
    (a x : ℕ) (ys : List ℕ) → a ≤ x → All (λ y. a ≤ y) ys → All (λ y. a ≤ y) (insert_sorted x ys)
unfolding insert_sorted
insert_sorted-above a x [] h k = (h, tt)
insert_sorted-above a x (y ∷ ys) h k = elim (Bool-cases (leb x y)) [
  | inl e ↦ rw (e, All) (h, k)
  | inr e ↦ rw (e, All) (k.0, insert_sorted-above a x ys h k.1)
]

insert_sorted-IsSorted : (x : ℕ) (ys : List ℕ) → IsSorted ys → IsSorted (insert_sorted x ys)
unfolding insert_sorted IsSorted
insert_sorted-IsSorted x [] h = (tt, tt)
insert_sorted-IsSorted x (y ∷ ys) h = elim (Bool-cases (leb x y)) [
  | inl e ↦ let le : x ≤ y = ground (arith, e) in rw (e, IsSorted) ((le, All-mono x y ys le h.0), h)
  | inr e ↦
      let le : y ≤ x = ground (arith, e) in
      rw (e, IsSorted) (insert_sorted-above y x ys le h.0, insert_sorted-IsSorted x ys h.1)
]

sort_unstable-IsSorted : (xs : List ℕ) → IsSorted (sort_unstable xs)
unfolding sort_unstable IsSorted
sort_unstable-IsSorted [] = tt
sort_unstable-IsSorted (x ∷ xs) = insert_sorted-IsSorted x _ (sort_unstable-IsSorted xs)

or_swap : (a b c : Bool) → (a || (b || c)) ≡ (b || (a || c))
or_swap true true c = refl
or_swap true false c = refl
or_swap false b c = refl

elem-insert_sorted : (x y : ℕ) (ys : List ℕ) → elem x (insert_sorted y ys) ≡ (x == y || elem x ys)
unfolding elem insert_sorted
elem-insert_sorted x y [] = refl
elem-insert_sorted x y (z ∷ zs) = elim (Bool-cases (leb y z)) [
  | inl e ↦ rw (e, elem)
  | inr e ↦
      rw (e, elem)
        (ap (λ (t : Bool). x == z || t) (elem-insert_sorted x y zs)
          ∙ or_swap (x == z) (x == y) (elem x zs))
]

elem-sort_unstable : (x : ℕ) (xs : List ℕ) → elem x (sort_unstable xs) ≡ elem x xs
unfolding elem sort_unstable
elem-sort_unstable x [] = refl
elem-sort_unstable x (y ∷ ys) =
    elem-insert_sorted x y (sort_unstable ys)
    ∙ ap (λ (t : Bool). x == y || t) (elem-sort_unstable x ys)

-- Nothing on a list that passes the loop was seen before.
distinct-unseen :
    (seen ps : List ℕ) → all_distinct seen ps ≡ true → All (λ p. elem p seen ≡ false) ps
unfolding all_distinct elem
distinct-unseen seen [] h = tt
distinct-unseen seen (p ∷ ps) h = elim (Bool-cases (elem p seen)) [
  | inl e ↦ absurd (ground (arith, h, e))
  | inr e ↦ (e, weaken ps (distinct-unseen (p ∷ seen) ps (ground (arith, h, e))))
]
  where
    weaken :
        (qs : List ℕ) → All (λ q. elem q (p ∷ seen) ≡ false) qs → All (λ q. elem q seen ≡ false) qs
    weaken [] k = tt
    weaken (q ∷ qs) k = (ground (arith, k.0), weaken qs k.1)

distinct-IsAscending :
    (seen ps : List ℕ) → IsSorted ps → all_distinct seen ps ≡ true → IsAscending ps
unfolding all_distinct IsSorted elem
distinct-IsAscending seen [] s h = tt
distinct-IsAscending seen (p ∷ ps) s h = elim (Bool-cases (elem p seen)) [
  | inl e ↦ absurd (ground (arith, h, e))
  | inr e ↦
      let rest : all_distinct (p ∷ seen) ps ≡ true = ground (arith, h, e) in
      (
        above ps s.0 (distinct-unseen (p ∷ seen) ps rest),
        distinct-IsAscending (p ∷ seen) ps s.1 rest,
      )
]
  where
    above :
        (qs : List ℕ)
        → All (λ q. p ≤ q) qs
        → All (λ q. elem q (p ∷ seen) ≡ false) qs
        → All (λ q. p < q) qs
    above [] k l = tt
    above (q ∷ qs) k l = (ground (arith, k.0, l.0), above qs k.1 l.1)

contains-elem :
    (set : ParticipantSet)
    → IsAscending set.participants
    → (p : ℕ) → contains set p ≡ elem p set.participants
unfolding contains
contains-elem set up p = elim (Bool-cases (elem p set.participants)) [
  | inl e ↦
      let (i, l, at) = elem-place p set.participants e in
      rw (e, sym at)
        (search_complete (length set.participants) set.participants i 0 (length set.participants) up
          (omega arith) l (omega arith) (omega arith))
  | inr e ↦
      elim (Bool-cases
        (binary_search (length set.participants) set.participants p 0 (length set.participants))) [
          | inl f ↦
              absurd (ground (arith, e, search_sound _ set.participants p 0 _ (omega arith) f))
          | inr f ↦ f ∙ sym e
        ]
]

-- A set that is made of a list is in strictly ascending order, and its binary search finds exactly
-- the identifiers on the list.
pub participant_set_new_lem :
    (ids : List ℕ) (set : ParticipantSet)
    → participant_set_new ids ≡ ok set
    → IsAscending set.participants × ((p : ℕ) → contains set p ≡ elem p ids)
unfolding participant_set_new
participant_set_new_lem ids set h =
    let made : Result MultipartyError ParticipantSet =
      ok record { participants = sort_unstable ids } in
    let checked =
      guard-eq-ok (not (length ids == 0)) invalid_parameters
        (guard (all_distinct [] (sort_unstable ids)) duplicate_participant >> made) h in
    let distinct =
      guard-eq-ok (all_distinct [] (sort_unstable ids)) duplicate_participant made checked.1 in
    let same : set.participants ≡ sort_unstable ids = ground (arith, distinct.1) in
    let up : IsAscending set.participants =
      rw same
        (distinct-IsAscending [] (sort_unstable ids) (sort_unstable-IsSorted ids) distinct.0) in
    (up, λ p. contains-elem set up p ∙ ap (elem p) same ∙ elem-sort_unstable p ids)
