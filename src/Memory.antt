-- ===== src/Memory.antt =====
-- manipmemory: the manipulator over an in-memory database. Its parts: Backend, what it uses, Query,
-- the retrieval by filters (manipulator.go, utils.go), Store, the operations and transactions, and
-- Schema, the tables and indexes.
pub mod Backend
pub mod Query
pub mod Store
pub mod Schema
