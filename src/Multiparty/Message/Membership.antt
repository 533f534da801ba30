-- ===== src/Multiparty/Message/Membership.antt =====
-- A transcript takes just the messages of its own session, protocol and round.
use phantom_fhe.Base.{
  ◌≡◌, ◌⊎◌, inl, inr, refl, [], ◌∷◌, ◌++◌, Bool, true, false, not, ◌||◌, ◌==◌, ok, err, All,
  All-append, arith,
}
use phantom_fhe.Multiparty.Error.{stale_share}
use phantom_fhe.Multiparty.Session.{SessionState, protocol_tag}
use phantom_fhe.Multiparty.Message.{TranscriptMessage, Transcript, transcript_append}

abbrev pub IsOf : SessionState → TranscriptMessage → Type 0
IsOf session message =
    (message.session_id ≡ session.id)
    × (protocol_tag message.protocol ≡ protocol_tag session.protocol)
    × (message.round ≡ session.round)

is_of : SessionState → TranscriptMessage → Bool
is_of session message = not (
    not (message.session_id == session.id)
    || not (protocol_tag message.protocol == protocol_tag session.protocol)
    || not (message.round == session.round))

is_of_iff :
    (session : SessionState) (message : TranscriptMessage)
    → ((is_of session message ≡ true) × IsOf session message)
      ⊎ ((is_of session message ≡ false) × (¬ IsOf session message))
unfolding is_of
is_of_iff session message = ground arith

-- For a transcript whose messages are all of its session, protocol tag and round: a message that
-- is so too is appended at the end and then all still are, and any other message is refused as
-- stale.
pub transcript_append_lem :
    (transcript : Transcript) (message : TranscriptMessage)
    → All (IsOf transcript.session) transcript.messages
    → (IsOf transcript.session message
        × (after : Transcript) × (transcript_append transcript message ≡ ok after)
        × (after.messages ≡ transcript.messages ++ (message ∷ []))
        × All (IsOf after.session) after.messages)
      ⊎ ((¬ IsOf transcript.session message)
          × (transcript_append transcript message ≡ err stale_share))
unfolding transcript_append is_of
transcript_append_lem transcript message all = elim (is_of_iff transcript.session message) [
  | inl (e, of) ↦
      let after : Transcript = record {
        session = transcript.session;
        messages = transcript.messages ++ (message ∷ []);
      } in
      inl (of, after, rw e refl, refl, All-append _ transcript.messages _ all (of, tt))
  | inr (e, other) ↦ inr (other, rw e)
]
