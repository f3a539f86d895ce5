-- ===== src/Memory/Datastore.antt =====
-- impl/memory/datastore_data.go: the entities of the in-memory datastore, and its transactions.
pub mod Data
pub mod Transaction
