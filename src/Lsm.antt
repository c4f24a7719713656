-- ===== src/Lsm.antt =====
-- src/lsm: the storage engine. Entries are pairs of a key and its bytes; an empty value stands for
-- a deleted key in a table.
pub mod Entries
pub mod Block
pub mod SsTable
pub mod MemTable
pub mod Merge
pub mod Manifest
pub mod Levels
pub mod Engine
pub mod Log
mod Tests
