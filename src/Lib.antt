-- ===== src/Lib.antt =====
-- gae: the model of a library that wraps the services of Google App Engine behind interfaces, with
-- an implementation in memory and filters that wrap a service in another.
--
-- A client of the datastore builds keys (service/datastore/key.go), properties
-- (service/datastore/properties.go) and a query (service/datastore/query.go). The query builder
-- keeps the first error and hands a checked query with its sort orders to a backend. The index of the
-- backend is ordered by the comparison of properties, which compares keys by key.go, which compares the
-- IDs of tokens by the comparison of properties again: the model breaks this circle by properties over
-- a type of keys.
--
-- The files and what they model:
-- - Prelude: names of the libraries, comparisons as orders, byte strings, and maps as association
--   lists. `cmp_bytes` is `cmpByteSequence` of properties.go.
-- - Datastore/Float: float64 as far as comparisons see it, and GeoPoint of types.go.
-- - Datastore/Property: Property, SetValue, IndexTypeAndValue, Compare, and under it Order and
--   Projection (Project). Datastore/KeyProperty is Property with the keys of key.go,
--   and Datastore/PropertyMap the PropertyMap with its metadata.
-- - Datastore/KeyTok and Datastore/Key: key.go, with the theorems on identity, order, parents, ancestors
--   and completion in the modules under it.
-- - Datastore/IndexColumn and Datastore/IndexDefinition: service/datastore/index.go.
-- - Datastore/Query: the builder of query.go; Query/Filter has Eq, the four inequality methods and
--   ClearFilters, Query/Finalize has finalizeImpl, and Query/Finalized is
--   service/datastore/finalized_query.go. A Go method `Foo` is `foo`, or `with_foo` and
--   `add_foo` where the record has a field of that name.
-- - Memory/Memcache: impl/memory/memcache.go. Each operation takes the time and the state and returns
--   its result with the new state; what a Multi method does for one item is `..._one`, which is what
--   the lock makes atomic. Memcache/Steps lists the operations as steps.
-- - Memory/TaskQueue: impl/memory/taskqueue.go and taskqueue_data.go. Task has what is done to a task before
--   it is queued, Index the heap of tasks as the sorted list that it stands for, Queue sortedQueue, Data
--   taskQueueData with the service, and Transaction the service in a transaction and its commit. A pointer to
--   a task is the task: Go changes only the ETA of one, while it is in no index, and `set_eta`
--   stores it in all that hold it. Queue/Steps lists the operations as steps, and what an operation keeps.
-- - Memory/Datastore: impl/memory/datastore_data.go. Data has the collections of entities, keyed by the bytes
--   that Serialize/Write makes of a key, each entity as the bytes of its properties with the contexts of keys,
--   which a get, an overwrite and a deletion read again, with the versions of the entity groups and the IDs; Transaction has
--   the mutations of a transaction, the check for collisions and the commit. The hash of `__scatter__` is an
--   argument.
-- - Filters/FeatureBreaker: filter/featureBreaker/featurebreaker.go, and mc.go over it.
-- - Filters/ReadOnly: `run` of filter/readonly/rds.go.
-- - Filters/TxnBuf: filter/txnBuf. SizeTracker and State have the state of state.go, Methods the methods of
--   txnBufState over any datastore, which Interface states, and Commit the effect of a transaction,
--   its commit and the nesting. A method of the state `S` is a function from `S` to a panic, an error
--   or a result, with the new state. The transaction is a datastore again, `txn_buf`, which a
--   nested one has below it. Mapping says what it is for a datastore to be a map of entities; Keys, Buffer,
--   Calls, Rows, Overlay, Effect and Roots have the lemmas, and Session functions that are run in
--   a transaction, as lists of calls.
-- - Filters/DsCache: filter/dscache. DsCache has serialize.go over the library zlib, the keys of
--   support.go and ds_txn_state.go, with the hash and the print of a key as arguments; Plan has plan.go, and
--   GetMulti of ds.go from the items that memcache.Get has filled to those of the compare-and-swap.
-- - Serialize/Invertible and Serialize/BinaryTools: invertible.go and binary_tools.go of
--   service/datastore/serialize. Serialize/Write and Serialize/Read are the halves of its serialize.go, over
--   the library cmpbin, which Serialize/Cmpbin states as an interface with laws: what is encoded is read
--   back, and encodings compare as bytes in the order of the values. Cmpbin/Unary meets the
--   interface. Serialize/Reader is the reader of the front of a buffer, with the errors as values.
--   A limit on what is read is a number that is counted down.
-- The modules whose names end in Tests have runs of the model and the theorems at concrete inputs.
--
-- Integers of Go are ℤ or ℕ; the 64-bit counters of memcache wrap (`% 2 ^ 64`). A string is its list
-- of bytes. A map of Go is an association list in which a key stands at most once. A time of the
-- datastore is a count of microseconds, what RoundTime leaves, in UTC; a time of memcache is a count
-- of nanoseconds, and one of the task queue is a count of nanoseconds after the zero time of Go. Every
-- loop is over a list, or counts down a number that was read, but for the printing of a task's number,
-- which writes at most 20 digits, as many as a 64-bit number has.
--
-- Not modelled: printing and GQL, the encodings of keys as text, JSON, gob and YAML, the reflection
-- that takes Go values of other types to the valid ones, white space beyond ASCII in TrimSpace, the
-- panics on a nil key, the cache of a query's finalized form, the indexes and the queries of the in-memory
-- datastore, and the backends other than those above.
-- The items of a Multi method are steps of their own, as the lock is taken for each, so a list of
-- steps stands for any interleaving of clients. The name that FeatureBreaker asks the Go runtime for is
-- an argument.
-- Of the datastore cache the calls of memcache, the random shard of a read and the global switch are not
-- modelled; the items are those of Memory/Memcache. Of buffered transactions the queries, the locks, the metadata getters and the callbacks that fail are
-- not modelled; the buffer is the in-memory datastore above, and a kindless query of it answers all its
-- entities. The numbers of bytes and of writes are int64s that wrap; a root is the bytes of its key.
pub mod Prelude
pub mod Datastore
pub mod Memory
pub mod Filters
pub mod Serialize
