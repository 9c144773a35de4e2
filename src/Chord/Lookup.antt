-- ===== src/Chord/Lookup.antt =====
-- Requests for the successor of an identifier, over all nodes of a ring.
pub mod Progress
pub mod Route
pub mod Stabilize
