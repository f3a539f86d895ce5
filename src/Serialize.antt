-- ===== src/Serialize.antt =====
-- service/datastore/serialize: the bytes of the index entries.
mod Tests
mod EncodingTests
pub mod Invertible
pub mod BinaryTools
pub mod Reader
pub mod Cmpbin
pub mod Write
pub mod Read
