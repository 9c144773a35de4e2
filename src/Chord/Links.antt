-- ===== src/Chord/Links.antt =====
-- The links of a chord node and the fingers that they stand for.
pub mod Count
pub mod Moved
pub mod Balance
pub mod Handlers
pub mod Turn
pub mod Exit
pub mod Life
pub mod Check
