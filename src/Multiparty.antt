-- ===== src/Multiparty.antt =====
-- crates/phantom-multiparty/src: what the threshold protocols share. Participants, sessions, the
-- guard against replays, the wire format of shares and messages, transcripts and aggregation.
pub mod Error
pub mod Participant
pub mod Session
pub mod ReplayGuard
pub mod Wire
pub mod Share
pub mod Message
pub mod Aggregator
pub mod Payload
pub mod Masking
pub mod Vss
mod Tests
