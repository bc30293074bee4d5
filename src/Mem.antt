-- ===== src/Mem.antt =====
-- crates/bkndb-storage-mem/src/lib.rs: the in-memory storage backend.
-- An `Arc` is the value that it shares: nothing is written through one that a snapshot still holds.
pub mod Commit
pub mod Range
pub mod Steps
pub mod Transaction
use bkndb.Prelude.{
  ℕ, List, [], ◌∷◌, Bool, true, false, ◌&&◌, not, Option, none, some, if◌then◌else◌,
}
use bkndb.Prelude.Order.{bytes_cmp, bytes_ord, pair_ord, is_lt, is_le, is_eq}
use bkndb.Prelude.BTreeMap
use bkndb.Prelude.BTreeMap.{BTreeMap, Bound, included, excluded, unbounded, in_bounds}

-- `Vec<u8>`, and a table name by its UTF-8 bytes
abbrev pub Bytes : Type 0
Bytes = List ℕ

abbrev pub Table : Type 0
Table = BTreeMap Bytes Bytes

abbrev pub Tables : Type 0
Tables = BTreeMap Bytes Table

-- `writer` is true while the mutex is held.
pub record MemoryStorageBackend : Type 0 where
  pub tables : Tables
  pub writer : Bool

pub record MemReadTx : Type 0 where
  pub snapshot : Tables

abbrev pub Pending : Type 0
Pending = BTreeMap (Bytes × Bytes) (Option Bytes)

pub record MemWriteTx : Type 0 where
  pub snapshot : Tables
  pub pending : Pending

abbrev pub new : MemoryStorageBackend
new = record { tables = []; writer = false }

unfoldable pub begin_read : MemoryStorageBackend → MemReadTx
begin_read b = record { snapshot = b.tables }

-- `none` is the wait for the mutex.
unfoldable pub begin_write : MemoryStorageBackend → Option (MemoryStorageBackend × MemWriteTx)
begin_write b =
    if b.writer
    then none
    else some (record b { writer = true }, record { snapshot = b.tables; pending = [] })

unfoldable pub bounds_empty : Bound Bytes → Bound Bytes → Bool
bounds_empty (included a) (included b) = is_lt (bytes_cmp b a)
bounds_empty (included a) (excluded b) = is_le (bytes_cmp b a)
bounds_empty (excluded a) (included b) = is_le (bytes_cmp b a)
bounds_empty (excluded a) (excluded b) = is_le (bytes_cmp b a)
bounds_empty _ _ = false

table_of : Option Table → Table
table_of none = []
table_of (some t) = t

unfoldable pub snapshot_get : Tables → Bytes → Bytes → Option Bytes
snapshot_get snapshot table key = elim (BTreeMap.get snapshot table) [
  | none ↦ none
  | some t ↦ BTreeMap.get t key
]

unfoldable pub snapshot_scan : Tables → Bytes → Bound Bytes → Bound Bytes → Table
unfolding bounds_empty
snapshot_scan snapshot table start end =
    if bounds_empty start end
    then []
    else elim (BTreeMap.get snapshot table) [ none ↦ [] | some t ↦ BTreeMap.range t start end ]

unfoldable pub read_get : MemReadTx → Bytes → Bytes → Option Bytes
unfolding snapshot_get
read_get tx table key = snapshot_get tx.snapshot table key

unfoldable pub read_range : MemReadTx → Bytes → Bound Bytes → Bound Bytes → Table
unfolding snapshot_scan
read_range tx table start end = snapshot_scan tx.snapshot table start end

unfoldable pub write_get : MemWriteTx → Bytes → Bytes → Option Bytes
unfolding snapshot_get
write_get tx table key = elim (BTreeMap.get tx.pending (table, key)) [
  | some overlay ↦ overlay
  | none ↦ snapshot_get tx.snapshot table key
]

-- The body of the loop over `pending` in `range`.
pub merge_entry : Table → Bytes → Option Bytes → Table
merge_entry merged k (some v) = BTreeMap.insert merged k v
merge_entry merged k none = BTreeMap.remove merged k

unfoldable pub merge_pending : Bytes → Bound Bytes → Bound Bytes → Pending → Table → Table
unfolding merge_entry
merge_pending table lo hi [] merged = merged
merge_pending table lo hi (((t, k), v) ∷ pending) merged =
    merge_pending table lo hi pending
      (if is_eq (bytes_cmp t table) && in_bounds lo hi k then merge_entry merged k v else merged)

unfoldable pub write_range : MemWriteTx → Bytes → Bound Bytes → Bound Bytes → Table
unfolding merge_pending
write_range tx table start end =
    merge_pending table start end tx.pending (snapshot_scan tx.snapshot table start end)

unfoldable pub put : MemWriteTx → Bytes → Bytes → Bytes → MemWriteTx
put tx table key value = record tx {
  pending = BTreeMap.insert tx.pending (table, key) (some value);
}

unfoldable pub delete : MemWriteTx → Bytes → Bytes → MemWriteTx
delete tx table key = record tx { pending = BTreeMap.insert tx.pending (table, key) none }

-- `tables.entry(table).or_default()` and the write to it
apply_entry : Tables → Bytes → Bytes → Option Bytes → Tables
unfolding table_of merge_entry
apply_entry tables table key value =
    BTreeMap.insert tables table (merge_entry (table_of (BTreeMap.get tables table)) key value)

apply_pending : Tables → Pending → Tables
unfolding apply_entry
apply_pending tables [] = tables
apply_pending tables (((t, k), v) ∷ pending) = apply_pending (apply_entry tables t k v) pending

-- `if self.pending.is_empty() { return Ok(()) }`, or else the loop over all of it
commit_tables : Tables → Pending → Tables
unfolding apply_pending
commit_tables tables [] = tables
commit_tables tables (e ∷ rest) = apply_pending tables (e ∷ rest)

-- The guard is dropped with the transaction, so the mutex is free again, on either way out.
unfoldable pub commit : MemoryStorageBackend → MemWriteTx → MemoryStorageBackend
unfolding commit_tables
commit b tx = record { tables = commit_tables b.tables tx.pending; writer = false }
