-- ===== src/Datastore.antt =====
-- service/datastore: the data model of the datastore API and its queries.
mod Tests
mod QueryTests
pub mod Float
pub mod Property
pub mod KeyTok
pub mod Key
pub mod KeyProperty
pub mod PropertyMap
pub mod IndexColumn
pub mod IndexDefinition
pub mod Query
