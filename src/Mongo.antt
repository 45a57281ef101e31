-- ===== src/Mongo.antt =====
-- manipmongo: the manipulator over MongoDB. Its parts: Bson (the documents that it sends), Compiler
-- (filters to documents), Failures (the errors of the driver), Retry (`RunQuery`), Ordering (orders,
-- fields and the filter for the next page), Queries (what the operations send), Reads, Writes
-- and Indexes (of a collection).
pub mod Bson
pub mod Compiler
pub mod Failures
pub mod Retry
pub mod Ordering
pub mod Queries
pub mod Writes
pub mod Reads
pub mod Indexes
