-- ===== src/Filters/TxnBuf.antt =====
-- filter/txnBuf: the filter that buffers a transaction in memory, so that transactions nest.
pub mod SizeTracker
pub mod Interface
pub mod State
pub mod Methods
pub mod Commit
pub mod Keys
pub mod Buffer
pub mod Calls
pub mod Mapping
pub mod Rows
pub mod Overlay
pub mod Effect
pub mod Roots
pub mod Session
