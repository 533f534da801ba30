-- ===== src/Utils.antt =====
-- crates/phantom-utils/src: the buffer reader and writer and the serialization header. The reader
-- reads from a byte slice and the writer writes to a vector, the standard library's `Read` and
-- `Write` that the callers use.
pub mod Error
pub mod Buffer
pub mod Header
mod Tests
