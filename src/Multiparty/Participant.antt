-- ===== src/Multiparty/Participant.antt =====
-- crates/phantom-multiparty/src/common/participant.rs
pub mod Search
pub mod Sorting
use phantom_fhe.Base.{
  ℕ, zero, suc, ◌+◌, ◌/◌, compare, Ordering, List, [], ◌∷◌, ◌++◌, Bool, true, false, not, ◌||◌,
  ◌==◌, leb, if◌then◌else◌, Result, ok, err, ◌>>=◌, ◌>>◌, guard, length, get_or, u64,
}
use phantom_fhe.Base.Bytes.{to_le_bytes}
use phantom_fhe.Multiparty.Error.{MultipartyError, invalid_parameters, duplicate_participant}

-- A nonzero number.
abbrev pub ParticipantId : Type 0
ParticipantId = ℕ

unfoldable pub participant_id_new : ℕ → Result MultipartyError ParticipantId
participant_id_new value = if value == 0 then err invalid_parameters else ok value

unfoldable pub participant_id_encode : ParticipantId → List ℕ
participant_id_encode id = to_le_bytes 8 id

pub record ParticipantSet : Type 0 where
  pub participants : List ParticipantId

-- Whether an identifier is on a list: a set's lookup.
unfoldable pub elem : ℕ → List ℕ → Bool
elem x [] = false
elem x (y ∷ ys) = x == y || elem x ys

unfoldable pub insert_sorted : ℕ → List ℕ → List ℕ
insert_sorted x [] = x ∷ []
insert_sorted x (y ∷ ys) = if leb x y then x ∷ y ∷ ys else y ∷ insert_sorted x ys

-- The standard library's sort: on identifiers every sort gives the same list.
unfoldable pub sort_unstable : List ℕ → List ℕ
sort_unstable [] = []
sort_unstable (x ∷ xs) = insert_sorted x (sort_unstable xs)

-- The loop that puts every participant into `seen` and stops at one that is there.
unfoldable pub all_distinct : List ℕ → List ℕ → Bool
all_distinct seen [] = true
all_distinct seen (p ∷ ps) =
    let rest = all_distinct (p ∷ seen) ps in if elem p seen then false else rest

unfoldable pub participant_set_new : List ParticipantId → Result MultipartyError ParticipantSet
participant_set_new participants = do
  guard (not (length participants == 0)) invalid_parameters
  guard (all_distinct [] (sort_unstable participants)) duplicate_participant
  ok record { participants = sort_unstable participants }

-- `binary_search` between `lo` and `hi`; every step halves the range, so its length is fuel enough.
unfoldable pub binary_search : ℕ → List ℕ → ℕ → ℕ → ℕ → Bool
binary_search zero xs x lo hi = false
binary_search (suc fuel) xs x lo hi =
    let middle = (lo + hi) / 2 in
    let below = binary_search fuel xs x lo middle in
    let above = binary_search fuel xs x (suc middle) hi in
    if leb hi lo then false else elim (compare (get_or xs middle 0) x) [
      | Ordering.lt ↦ above
      | Ordering.eq ↦ true
      | Ordering.gt ↦ below
    ]

unfoldable pub contains : ParticipantSet → ParticipantId → Bool
contains set participant =
    binary_search (length set.participants) set.participants participant 0 (length set.participants)

unfoldable pub set_len : ParticipantSet → ℕ
set_len set = length set.participants

unfoldable pub encode_ids : List ParticipantId → List ℕ
encode_ids [] = []
encode_ids (p ∷ ps) = participant_id_encode p ++ encode_ids ps

unfoldable pub participant_set_encode : ParticipantSet → List ℕ
participant_set_encode set =
    to_le_bytes 8 (u64 (length set.participants)) ++ encode_ids set.participants
