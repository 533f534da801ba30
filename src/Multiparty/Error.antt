-- ===== src/Multiparty/Error.antt =====
-- crates/phantom-multiparty/src/error.rs; `invalid_parameters` is without its message.
pub data MultipartyError : Type 0 where
  invalid_parameters duplicate_participant missing_share unknown_participant : MultipartyError
  stale_share malformed_message threshold_not_met invalid_vss_share : MultipartyError
  replayed_share : MultipartyError
