-- ===== src/Collections.antt =====
-- The standard library's hash maps and sets, as the program uses them, and common/src/util.rs.
pub mod HashMap
pub mod HashSet
pub mod SetMap
pub mod DoubleSetMap
