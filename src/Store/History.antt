-- ===== src/Store/History.antt =====
-- What the operations of the store do to committed history.
pub mod Inserts
pub mod Finish
pub mod Fork
