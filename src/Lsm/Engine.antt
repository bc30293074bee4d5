-- ===== src/Lsm/Engine.antt =====
-- crates/bkndb-storage-lsm/src/engine/mod.rs and tx.rs: the state of the engine, and what a
-- transaction reads. The writer lock, the path and the lock of the operating system are left out.
pub mod Faults
pub mod Reads
pub mod Scans
pub mod Store
use bkndb.Prelude.{
  ℕ, List, [], ◌∷◌, ◌++◌, Bool, true, false, Option, none, some, length, drop, if◌then◌else◌,
}
use bkndb.Prelude.Order.{bytes_cmp, bytes_ord}
use bkndb.Prelude.BTreeMap
use bkndb.Prelude.BTreeMap.{BTreeMap, Bound, range, insert}
use bkndb.Error.{Result, ok, err, ◌>>=◌}
use bkndb.Lsm.Codec.{Bincode}
use bkndb.Lsm.Keys.{TableSpec, table_prefix, encode_key}
use bkndb.Lsm.Bounds.{bounds_empty, table_scan_bounds}
use bkndb.Lsm.Memtable.{Entry, Memtable, LsmValue, value, tombstone}
use bkndb.Lsm.Merge.{EntryIter, collect, new}
use bkndb.Lsm.Merge.Heads.{all_ok}
use bkndb.Lsm.Merge.Collect.{Pairs}
use bkndb.Lsm.Sstable.Handle.{SstableHandle, get}
use bkndb.Lsm.Sstable.Cursor.{cursor, drain}
use bkndb.Lsm.Sstable.Write.{Crates}

pub record LsmOptions : Type 0 where
  pub memtable_flush_bytes : ℕ
  pub compaction_trigger_files : ℕ
  pub block_size_bytes : ℕ
  pub compression : Bool

-- The newest table is the last.
pub record EngineState : Type 0 where
  pub active_memtable : Memtable
  pub immutable_memtables : List Memtable
  pub sstables : List SstableHandle
  pub next_sstable_id : ℕ
  pub wal_region_start : ℕ
  pub manifest_len : ℕ

pub record ReadSnapshot : Type 0 where
  pub active_memtable : Memtable
  pub immutable_memtables : List Memtable
  pub sstables : List SstableHandle

pub record ContainerWriter : Type 0 where
  pub file : List ℕ
  pub header_seq : ℕ
  pub header_slot : ℕ

pub record LsmStorageBackend : Type 0 where
  pub options : LsmOptions
  pub state : EngineState
  pub container : ContainerWriter

-- A write of a transaction: `none` deletes.
abbrev pub Pending : Type 0
Pending = BTreeMap (List ℕ) (Option (List ℕ))

abbrev pub snapshot : LsmStorageBackend → ReadSnapshot
snapshot b = record {
  active_memtable = b.state.active_memtable;
  immutable_memtables = b.state.immutable_memtables;
  sstables = b.state.sstables;
}

-- `iter().rev()`
abbrev pub newest_first {ℓ} : {A : Type ℓ} → List A → List A
newest_first [] = []
newest_first (x ∷ xs) = newest_first xs ++ x ∷ []

-- What a value that was found gives to the reader.
abbrev pub found : LsmValue → Option (List ℕ)
found (value bytes) = some bytes
found tombstone = none

-- The early returns of `lookup`: what was found first ends it.
abbrev pub or_value : Option LsmValue → Option (Option (List ℕ)) → Option (Option (List ℕ))
or_value none rest = rest
or_value (some v) rest = some (found v)

abbrev pub or_result :
    Option (Option (List ℕ)) → Result (Option (List ℕ)) → Result (Option (List ℕ))
or_result none rest = rest
or_result (some entry) rest = ok entry

unfoldable pub pending_entry : Option Pending → List ℕ → Option (Option (List ℕ))
pending_entry none key = none
pending_entry (some p) key = BTreeMap.get p key

unfoldable pub lookup_memtables : List Memtable → List ℕ → Option (Option (List ℕ))
lookup_memtables [] key = none
lookup_memtables (m ∷ ms) key =
    let rest = lookup_memtables ms key in or_value (BTreeMap.get m key) rest

-- A value of a transaction, as the engine stores it.
abbrev pub lsm_value : Option (List ℕ) → LsmValue
lsm_value (some bytes) = value bytes
lsm_value none = tombstone

abbrev pub pending_entries : Pending → List Entry
pending_entries [] = []
pending_entries ((k, v) ∷ p) = (k, lsm_value v) ∷ pending_entries p

-- The entries of `p.range(...)` of the transaction's own writes, one source where there is one.
unfoldable pub pending_sources : Option Pending → Bound (List ℕ) → Bound (List ℕ) → List EntryIter
pending_sources none lo hi = []
pending_sources (some p) lo hi = all_ok (pending_entries (range p lo hi)) ∷ []

unfoldable pub memtable_sources : List Memtable → Bound (List ℕ) → Bound (List ℕ) → List EntryIter
memtable_sources [] lo hi = []
memtable_sources (m ∷ ms) lo hi = all_ok (range m lo hi) ∷ memtable_sources ms lo hi

-- `k[prefix_len..]` of every key.
abbrev pub strip : ℕ → Pairs → Pairs
strip n [] = []
strip n ((k, v) ∷ out) = (drop n k, v) ∷ strip n out

module _ (c : Crates) where
  unfoldable pub lookup_sstables : List SstableHandle → List ℕ → Result (Option (List ℕ))
  lookup_sstables [] key = ok none
  lookup_sstables (h ∷ hs) key =
      let rest = lookup_sstables hs key in
      get c.crc32 c.lz4 h key >>= λ o. or_result (or_value o none) rest

  unfoldable pub lookup : ReadSnapshot → Option Pending → List ℕ → Result (Option (List ℕ))
  lookup s pending key = or_result (pending_entry pending key) (
      or_result (lookup_memtables (s.active_memtable ∷ newest_first s.immutable_memtables) key)
        (lookup_sstables (newest_first s.sstables) key))

  -- Fuel bounds the entries that a cursor yields.
  unfoldable pub table_sources :
      ℕ → List SstableHandle → Bound (List ℕ) → Bound (List ℕ) → List EntryIter
  table_sources fuel [] lo hi = []
  table_sources fuel (h ∷ hs) lo hi =
      drain c.crc32 c.lz4 fuel (cursor h lo hi) ∷ table_sources fuel hs lo hi

  unfoldable pub scan_sources :
      ℕ → ReadSnapshot → Option Pending → Bound (List ℕ) → Bound (List ℕ) → List EntryIter
  scan_sources fuel s pending lo hi =
      if bounds_empty lo hi
      then []
      else pending_sources pending lo hi
        ++ (memtable_sources (s.active_memtable ∷ newest_first s.immutable_memtables) lo hi
            ++ table_sources fuel (newest_first s.sstables) lo hi)

  unfoldable pub scan_table :
      ℕ → ReadSnapshot → Option Pending → TableSpec → Bound (List ℕ) → Bound (List ℕ) → Result Pairs
  scan_table fuel s pending table start end =
      let bounds = table_scan_bounds table start end in
      collect fuel (new (scan_sources fuel s pending bounds.0 bounds.1)) >>= λ out.
      ok (strip (length (table_prefix table)) out)

-- `LsmWriteTx`; a read transaction is its snapshot.
pub record LsmWriteTx : Type 0 where
  pub snapshot_of : ReadSnapshot
  pub pending : Pending

unfoldable pub begin_write : LsmStorageBackend → LsmWriteTx
begin_write b = record { snapshot_of = snapshot b; pending = [] }

unfoldable pub tx_get : Crates → LsmWriteTx → TableSpec → List ℕ → Result (Option (List ℕ))
tx_get c tx table key = lookup c tx.snapshot_of (some tx.pending) (encode_key table key)

unfoldable pub tx_put : LsmWriteTx → TableSpec → List ℕ → List ℕ → LsmWriteTx
tx_put tx table key v = record tx { pending = insert tx.pending (encode_key table key) (some v) }

unfoldable pub tx_delete : LsmWriteTx → TableSpec → List ℕ → LsmWriteTx
tx_delete tx table key = record tx { pending = insert tx.pending (encode_key table key) none }
