-- ===== src/Compiler.antt =====
-- The passes of the compiler over the source tree (nreduce/compiler).
pub mod Syntax
pub mod Names
pub mod Renaming
pub mod Nameless
pub mod Room
pub mod Builtins
pub mod Scombs
pub mod Copying
pub mod Evaluation
pub mod Strictness
pub mod Resolve
mod Tests
