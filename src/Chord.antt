-- ===== src/Chord.antt =====
-- The Chord lookup service (nreduce/runtime/chord.h and chord.c): each node keeps a successor and a
-- table of fingers on a ring of identifiers, and answers or forwards requests for the successor of
-- an identifier.
pub mod Types
pub mod Interval
pub mod Table
pub mod Handlers
pub mod Lookup
pub mod Links
pub mod Tests
pub mod Success
pub mod Failover
pub mod Join
pub mod Stabilizer
