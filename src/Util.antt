-- ===== src/Util.antt =====
-- The helpers of nreduce/network/util.c.
pub mod Escape
pub mod Words
pub mod Arrays
pub mod Lists
pub mod Stacks
pub mod Times
mod Tests
