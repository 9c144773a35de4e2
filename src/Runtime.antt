-- ===== src/Runtime.antt =====
-- The runtime system (nreduce/runtime).
pub mod Wire
pub mod Inflight
