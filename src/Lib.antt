-- ===== src/Lib.antt =====
-- bkndb is an embedded database for graphs, tables and vectors: a core crate with the data layers,
-- over a storage trait that a backend implements. This library models the parts that keep the data:
-- two storage backends and the byte formats of the storage engine and of the layers above it.
--
-- How the parts interact: the graph and relational layers write keys of their own into named tables of
-- a storage transaction. The LSM backend maps every table into one flat keyspace, logs each commit as
-- a frame of the write-ahead log, and publishes a manifest through one of two header slots of its
-- container file. The memory backend keeps tables in maps that snapshots share.
--
-- Files and sources (paths from the root of the repository):
--   Prelude      the standard library as the code uses it: `Ord`, `BTreeMap` as an ascending list of
--                entries, byte strings, `to_be_bytes`, slices, `i64`, `^` with one bit, UTF-8.
--   Error        crates/bkndb-core/src/error.rs, and the `?` operator as a bind.
--   Mem          crates/bkndb-storage-mem/src/lib.rs: a transaction is a value, the mutex a flag of
--                the backend; Mem.Steps runs transactions one after the other as a step relation.
--   Lsm.Keys     crates/bkndb-storage-lsm/src/keys.rs; Lsm.Bounds: the scan bounds of engine/tx.rs.
--   Lsm.Wal      crates/bkndb-storage-lsm/src/wal.rs: `append`, `replay_from` on the file's bytes.
--   Lsm.Container crates/bkndb-storage-lsm/src/container.rs: the header slots, `write_header`,
--                `read_header`, `write_blob_at`, `read_manifest`.
--   Lsm.Memtable crates/bkndb-storage-lsm/src/memtable.rs.
--   Lsm.Bloom    crates/bkndb-storage-lsm/src/bloom.rs: the hash, `insert`, `might_contain`.
--   Lsm.Sstable  crates/bkndb-storage-lsm/src/sstable: entries and blocks of format.rs and cursor.rs;
--                Lsm.Sstable.Handle: the point lookup of mod.rs; Lsm.Sstable.Writer and
--                Lsm.Sstable.Write: the block writer and `write`; Lsm.Sstable.Cursor: range reads.
--   Lsm.Merge    crates/bkndb-storage-lsm/src/compaction.rs: the merge behind scans and compaction.
--   Lsm.Manifest crates/bkndb-storage-lsm/src/manifest.rs.
--   Lsm.Engine   crates/bkndb-storage-lsm/src/engine: the state, lookups and scans (mod.rs, tx.rs), and
--                in Lsm.Engine.Store commit, flush and compaction (write.rs, ops.rs), with the
--                writes that the operating system fails in Lsm.Engine.Faults.
--   Graph.Codec  crates/bkndb-core/src/graph/codec.rs: node, edge and adjacency keys.
--   Value        crates/bkndb-core/src/value.rs: values, their comparison, their sortable keys.
--   Storage      crates/bkndb-core/src/storage.rs: a write transaction as an interface with laws,
--                which Mem.Transaction fills.
--   Relational   crates/bkndb-core/src/relational/codec.rs: row keys, index keys, range bounds, and
--                the counter of automatic keys over the interface of Storage.
--   Kv           crates/bkndb-core/src/reserved.rs and kv/mod.rs: the names that are reserved, and the
--                facade's operations over Mem; Kv.Reserved: what its writes change.
--   Examples     runs at concrete inputs.
--
-- A byte is a number below 256, a file the list of its bytes, a string its UTF-8 bytes. Errors carry
-- no message texts. bincode, CRC-32 and lz4 are parameters (Lsm.Codec): a serialiser and a compressor
-- with their round trips, and a hash of 32 bits. Floats are bit patterns, and the operations of `f64`
-- are a parameter too.
--
-- Fuel: the loop of `replay_from` has the length of the file, since a round that goes on consumes at
-- least the eight bytes of a frame's header; the loop over a block has the length of the block, since
-- an entry takes at least five bytes. A merge and a cursor have fuel for the entries that they yield,
-- which the theorems compare with the entries that the layers hold; one step of a cursor has the number
-- of its blocks, since each round of its loop loads one.
--
-- Not modelled: the calls of the operating system (opening, locking, renaming and syncing files), the
-- redb backend, which calls another library, the parsers of the query languages, search and ranking
-- in floating point, the bindings, and, of the engine, the opening of a database, backups and statistics.
-- Reads of the operating system succeed. Writes succeed in the definitions of Lsm.Wal, Lsm.Container
-- and Lsm.Sstable; the engine's parameter `Io` makes the writes of its log, of a flush and of a
-- compaction fail, with any bytes left in the file. A crash in a header write or in the last frame of
-- the log leaves the first bytes of what was written. A table's handle reads the file as it was when
-- the table was written, which stays the same since the code overwrites no table. Locks are left out:
-- a transaction of the engine runs alone.
pub mod Error
pub mod Examples
pub mod Graph
pub mod Kv
pub mod Lsm
pub mod Mem
pub mod Prelude
pub mod Relational
pub mod Storage
pub mod Value
