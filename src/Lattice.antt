-- ===== src/Lattice.antt =====
-- crates/phantom-lattice/src: RLWE plaintexts and ciphertexts, and operations on them.
pub mod Types
pub mod Evaluator
mod Tests
