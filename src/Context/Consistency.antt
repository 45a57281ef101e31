-- ===== src/Context/Consistency.antt =====
-- context.go: the read and write consistencies.
pub data ReadConsistency : Type 0 where
  default nearest eventual monotonic strong weakest : ReadConsistency

pub data WriteConsistency : Type 0 where
  default none strong strongest : WriteConsistency
