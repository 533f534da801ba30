-- ===== src/Multiparty/ReplayGuard/Safety.antt =====
-- Over any sequence of calls of one guard, a share is allowed once per key.
use phantom_fhe.Base.{
  ℕ, ◌≡◌, refl, ◌⊎◌, List, [], ◌∷◌, Bool, true, false, ◌||◌, ◌==◌, Result, ok, err, panic, All,
  arith, Bool-cases, inl, inr, sym, ap, subst,
}
use phantom_fhe.Multiparty.Error.{MultipartyError, replayed_share}
use phantom_fhe.Multiparty.Participant.{ParticipantId}
use phantom_fhe.Multiparty.Session.{SessionState}
use phantom_fhe.Multiparty.ReplayGuard.{
  UseKey, ReplayGuard, key_eq, is_used, guard_new, use_key, record_use,
}

-- An answer's share of the accepted keys.
abbrev pub admit : UseKey → Result MultipartyError (Unit {0}) → List UseKey → List UseKey
admit key (ok _) keys = key ∷ keys
admit key (err e) keys = keys
admit key panic keys = keys

-- The keys of the calls that the guard answers with `ok`, in their order.
abbrev pub accepted : ReplayGuard → List (SessionState × ParticipantId) → List UseKey
accepted guard [] = []
accepted guard ((session, participant) ∷ calls) =
    admit (use_key session participant) (record_use guard session participant).1
      (accepted (record_use guard session participant).0 calls)

abbrev pub IsDistinct : List UseKey → Type 0
IsDistinct [] = Unit
IsDistinct (key ∷ keys) = (is_used key keys ≡ false) × IsDistinct keys

==_comm : (a b : ℕ) → (a == b) ≡ (b == a)
==_comm a b = ground arith

key_eq_comm : (a b : UseKey) → key_eq a b ≡ key_eq b a
unfolding key_eq
key_eq_comm a b = rw (
  ==_comm a.session b.session,
  ==_comm a.round b.round,
  ==_comm a.protocol b.protocol,
  ==_comm a.participant b.participant,
)

-- A key off a longer list is off its tail and differs from its head.
off-tail :
    (key used : UseKey) (keys : List UseKey)
    → is_used key (used ∷ keys) ≡ false
    → (key_eq used key ≡ false) × (is_used key keys ≡ false)
unfolding is_used
off-tail key used keys h = rw (key_eq_comm used key) (split (key_eq key used) (is_used key keys) h)
  where
    split : (a b : Bool) → (a || b) ≡ false → (a ≡ false) × (b ≡ false)
    split true b e = absurd (ground arith)
    split false b e = (refl, e)

All-off_tail :
    (used : UseKey) (keys xs : List UseKey)
    → All (λ key. is_used key (used ∷ keys) ≡ false) xs
    → (is_used used xs ≡ false) × All (λ key. is_used key keys ≡ false) xs
unfolding is_used
All-off_tail used keys [] h = (refl, tt)
All-off_tail used keys (x ∷ xs) h =
    let first = off-tail x used keys h.0 in
    let rest = All-off_tail used keys xs h.1 in (rw first.0 rest.0, (first.1, rest.1))

-- A refused call changes nothing, and an accepted one adds its key.
record_use-cases :
    (guard : ReplayGuard) (session : SessionState) (participant : ParticipantId)
    → ((is_used (use_key session participant) guard.used ≡ true)
        × (record_use guard session participant ≡ (guard, err replayed_share)))
      ⊎ ((is_used (use_key session participant) guard.used ≡ false)
          × (record_use guard session participant
              ≡ (record { used = use_key session participant ∷ guard.used }, ok tt)))
unfolding record_use
record_use-cases guard session participant =
    elim (Bool-cases (is_used (use_key session participant) guard.used)) [
      | inl e ↦ inl (e, rw e)
      | inr e ↦ inr (e, rw e)
    ]

Fresh : ReplayGuard → List UseKey → Type 0
Fresh guard keys = All (λ key. is_used key guard.used ≡ false) keys × IsDistinct keys

accepted-cons :
    (guard : ReplayGuard) (session : SessionState) (participant : ParticipantId)
    (calls : List (SessionState × ParticipantId))
    (answer : ReplayGuard × Result MultipartyError (Unit {0}))
    → record_use guard session participant ≡ answer
    → accepted guard ((session, participant) ∷ calls)
      ≡ admit (use_key session participant) answer.1 (accepted answer.0 calls)
accepted-cons guard session participant calls answer e =
    ap
      (λ (r : ReplayGuard × Result MultipartyError (Unit {0})).
        admit (use_key session participant) r.1 (accepted r.0 calls))
      e

accepted-Fresh :
    (guard : ReplayGuard) (calls : List (SessionState × ParticipantId))
    → Fresh guard (accepted guard calls)
unfolding Fresh
accepted-Fresh guard [] = (tt, tt)
accepted-Fresh guard ((session, participant) ∷ calls) =
    elim (record_use-cases guard session participant) [
      | inl (used, e) ↦
          subst (Fresh guard) (sym (accepted-cons guard session participant calls _ e))
            (accepted-Fresh guard calls)
      | inr (fresh, e) ↦
          let rest =
            accepted-Fresh record { used = use_key session participant ∷ guard.used } calls in
          let off = All-off_tail (use_key session participant) guard.used _ rest.0 in
          subst (Fresh guard) (sym (accepted-cons guard session participant calls _ e))
            ((fresh, off.1), (off.0, rest.1))
    ]

-- Over any sequence of calls of a new guard, the keys on which a call is answered with `ok` are
-- pairwise different.
pub accepted-IsDistinct :
    (calls : List (SessionState × ParticipantId)) → IsDistinct (accepted guard_new calls)
unfolding Fresh
accepted-IsDistinct calls = (accepted-Fresh guard_new calls).1
