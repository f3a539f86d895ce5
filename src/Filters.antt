-- ===== src/Filters.antt =====
-- filter/: services that wrap another service of the same interface.
mod Tests
mod TxnBufTests
mod DsCacheTests
pub mod FeatureBreaker
pub mod ReadOnly
pub mod TxnBuf
pub mod DsCache
