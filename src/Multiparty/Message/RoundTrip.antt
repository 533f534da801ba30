-- ===== src/Multiparty/Message/RoundTrip.antt =====
-- A message is decoded from its encoding.
use phantom_fhe.Base.{◌^◌, ◌<◌, ◌≡◌, false, ◌==◌, ok, length, IsU64, arith}
use phantom_fhe.Multiparty.Participant.{participant_id_new, participant_id_encode}
use phantom_fhe.Multiparty.Session.{session_id_new, session_id_encode, protocol_tag}
use phantom_fhe.Multiparty.Wire.{reader_new}
use phantom_fhe.Multiparty.Wire.Reading.{
  IsAt, expect-IsAt, read_u32-IsAt, read_u64-IsAt, read_framed-IsAt, read_framed-last,
  reader_new-IsAt,
}
use phantom_fhe.Multiparty.Share.RoundTrip.{IsPlainProtocol, protocol_from_tag-protocol_tag}
use phantom_fhe.Multiparty.Message.{
  TranscriptMessage, message_magic, message_encode, message_decode,
}

-- What the types of the source and its constructors give, and a length below 2 ^ 64.
pub record IsMessage (message : TranscriptMessage) : Type 0 where
  pub session_pos : 0 < message.session_id
  pub session_word : IsU64 message.session_id
  pub protocol_word : protocol_tag message.protocol < 2 ^ 32
  pub round_word : IsU64 message.round
  pub sender_pos : 0 < message.sender
  pub sender_word : IsU64 message.sender
  pub label_pos : 0 < length message.label
  pub bounded : length (message_encode message) < 2 ^ 64

-- A message with nonzero word identifiers, a word round, a 32-bit protocol tag, a label that is
-- not empty and an encoding below 2 ^ 64 bytes, whose protocol is a named one or a custom one with
-- a tag of its own, is decoded from its encoding just as it was.
pub message_decode-message_encode :
    (message : TranscriptMessage)
    → IsMessage message
    → IsPlainProtocol message.protocol
    → message_decode (message_encode message) ≡ ok message
unfolding message_decode message_encode session_id_encode participant_id_encode session_id_new
    participant_id_new
message_decode-message_encode message h plain =
    let (e1, a1) =
      expect-IsAt (reader_new (message_encode message)) message_magic _ (start message h) in
    let (e2, a2) = read_u64-IsAt _ message.session_id _ h.session_word a1 in
    let (e3, a3) = read_u32-IsAt _ (protocol_tag message.protocol) _ h.protocol_word a2 in
    let (e4, a4) = read_u64-IsAt _ message.round _ h.round_word a3 in
    let (e5, a5) = read_u64-IsAt _ message.sender _ h.sender_word a4 in
    let (e6, a6) = read_framed-IsAt _ message.label _ a5 in
    let (e7, done) = read_framed-last _ message.payload a6 in
    let session : (message.session_id == 0) ≡ false = ground (arith, h.session_pos) in
    let sender : (message.sender == 0) ≡ false = ground (arith, h.sender_pos) in
    let label : (length message.label == 0) ≡ false = ground (arith, h.label_pos) in
    rw (
      e1,
      e2,
      session,
      e3,
      e4,
      e5,
      sender,
      e6,
      e7,
      done,
      label,
      protocol_from_tag-protocol_tag message.protocol plain,
    )
  where
    start :
        (m : TranscriptMessage)
        → IsMessage m
        → IsAt (reader_new (message_encode m)) (message_encode m)
    start m k = reader_new-IsAt (message_encode m) k.bounded
