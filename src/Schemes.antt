-- ===== src/Schemes.antt =====
-- crates/phantom-schemes: the parameters of the schemes, their plaintexts and ciphertexts, and the
-- byte forms of these.
pub mod Error
pub mod Float
pub mod Params
pub mod Builder
pub mod Types
pub mod Serialization
pub mod Codec
mod Tests
