-- ===== src/Store.antt =====
-- crates/store/src: what the device remembers. A table is a list of rows; the transactions of SQLite
-- are the functions on it, and `false` in place of `answers` is a database that fails, whose
-- transaction is rolled back.
pub mod Commands
pub mod Outcomes
pub mod Marks
pub mod Journal
pub mod Consecutive
pub mod Pages
pub mod Contents
