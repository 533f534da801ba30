-- ===== src/Ring.antt =====
-- crates/phantom-ring: residues, reducers, big integers, polynomials and the ring of them.
pub mod Error
pub mod Types
pub mod Reduce
pub mod Barrett
pub mod Montgomery
pub mod BigUint
pub mod Poly
pub mod Ntt
pub mod Gcd
pub mod Context
pub mod Rns
mod Tests
