-- ===== src/Memory/TaskQueue.antt =====
-- impl/memory/taskqueue.go and taskqueue_data.go.
pub mod Task
pub mod Index
pub mod Queue
pub mod Data
pub mod Transaction
