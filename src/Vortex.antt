-- ===== src/Vortex.antt =====
-- manipvortex: a write-through or write-back cache between a downstream store and an upstream one.
-- Its parts: Strength (which consistency applies), Commit (the commits to each side), Writes (the
-- operations that write, the queue and the background loop), Reads (`Retrieve`), Bulk (the operations
-- by an identity), Warming (`warmUp` and `Flush`), Subscriptions (which upstream events are
-- committed), Events (what becomes of an upstream event), Monitor (the loop over what the upstream
-- subscriber gives out) and Making (the options and `New`).
pub mod Strength
pub mod Commit
pub mod Writes
pub mod Reads
pub mod Bulk
pub mod Warming
pub mod Subscriptions
pub mod Events
pub mod Monitor
pub mod Making
