-- ===== src/Lsm.antt =====
-- crates/bkndb-storage-lsm: the append-only single-file storage engine.
pub mod Codec
pub mod Keys
pub mod Bounds
pub mod Wal
pub mod Container
pub mod Memtable
pub mod Bloom
pub mod Sstable
pub mod Merge
pub mod Manifest
pub mod Engine
