-- ===== src/Memory.antt =====
-- impl/memory: the in-memory implementation of the services.
mod Tests
mod TaskQueueTests
mod DatastoreTests
pub mod Memcache
pub mod TaskQueue
pub mod Datastore
