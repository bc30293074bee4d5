-- ===== src/Examples/EngineRuns.antt =====
-- crates/bkndb-storage-lsm/src/engine at a small database.
use bkndb.Prelude.{ℕ, ◌≡◌, ◌∙◌, refl, arith, List, [], ◌∷◌, true, false, none, some, replicate}
use bkndb.Prelude.Order.{bytes_cmp, bytes_ord}
use bkndb.Prelude.BTreeMap
use bkndb.Prelude.BTreeMap.{IsSorted, included, excluded, unbounded, in_bounds}
use bkndb.Error.{ok, err}
use bkndb.Lsm.Memtable.{Entry, value, tombstone}
use bkndb.Prelude.Heap
use bkndb.Lsm.Merge.{new, collect, advance_from, advance, pull, consume, discard, remaining}
use bkndb.Lsm.Merge.Collect.{Pairs}
use bkndb.Lsm.Merge.Heads.{all_ok}
use bkndb.Lsm.Sstable.Handle.{SstableHandle, get}
use bkndb.Prelude.BigEndian.{to_be}
use bkndb.Lsm.Sstable.{encode_entry, encode_value}
use bkndb.Lsm.Sstable.Writer.{
  WriteOptions, push, add_entry, finish_block, close_block, too_big, compress_raw,
}
use bkndb.Lsm.Sstable.Write.{write, write_entries, write_entry, start_state}
use bkndb.Lsm.Sstable.Write.Built.{write-IsBuilt, get-write}
use bkndb.Lsm.Engine.Faults.{attempt, or_fault}
use bkndb.Lsm.Engine.{LsmStorageBackend, snapshot, scan_sources, Pending}
use bkndb.Lsm.Engine.Scans.{IsSnapshot, scan_lem, Scanned}
use bkndb.Lsm.Memtable.{memtable_byte_size, value_size}
use bkndb.Lsm.Wal.{append, frame}
use bkndb.Lsm.Merge.Start.{sources_of}
use bkndb.Lsm.Engine.{table_sources, newest_first}
use bkndb.Lsm.Engine.Scans.{table_sources-eq}
use bkndb.Prelude.BTreeMap.{range}
use bkndb.Lsm.Engine.Store.{
  FreshContainer, write_fresh_container, swap_in, expected_entries, estimated_entries, apply_writes,
  write_options, install, Outcome, done, failed, flush, compact_all, commit_pending,
}
use bkndb.Lsm.Engine.Store.Compact.{IsEngine, Keeps, compact_all_lem}
use bkndb.Lsm.Engine.Store.Flush.{flush_lem}
use bkndb.Lsm.Engine.Store.Commit.{Publishes, commit_pending_lem}
use bkndb.Examples.Fixtures.{plain}
use bkndb.Examples.Coding.{crates, manifest_bincode, quiet}

abbrev pub entries : List Entry
entries = (b'a' ∷ [], value (1 ∷ [])) ∷ (b'b' ∷ [], tombstone) ∷ []

abbrev pub opts : WriteOptions
opts = record { block_size = 8; compress = false }

-- A container file that is empty but for its header.
abbrev pub file : List ℕ
file = replicate 128 0

abbrev pub no_handle : SstableHandle
no_handle = record {
  mmap = [];
  base_offset = 0;
  blob_len = 0;
  bloom = record { m = 0; k = 0; bits = [] };
  blocks = [];
  entry_count = none;
  min_key = [];
  max_key = [];
  generation = 0;
}

abbrev pub table : List ℕ × SstableHandle
table = elim (write crates file 1 (all_ok entries) 2 opts) [ ok t ↦ t | err e ↦ ([], no_handle) ]

wrote : write crates file 1 (all_ok entries) 2 opts ≡ ok (table.0, table.1)
unfolding write write_entries write_entry push add_entry start_state encode_entry to_be encode_value
    finish_block close_block too_big compress_raw
wrote = refl

entries-IsSorted : IsSorted entries
unfolding bytes_cmp
entries-IsSorted = ((refl, tt), (tt, tt))

get-write_example :
    get crates.crc32 crates.lz4 table.1 (b'b' ∷ []) ≡ ok (BTreeMap.get entries (b'b' ∷ []))
get-write_example =
    get-write crates file 1 2 opts entries table.0 table.1 (b'b' ∷ []) wrote (omega arith)
      entries-IsSorted

-- The table, and a newer value in memory.
abbrev pub engine : LsmStorageBackend
engine = record {
  options = record {
    memtable_flush_bytes = 4;
    compaction_trigger_files = 9;
    block_size_bytes = 8;
    compression = true;
  };
  state = record {
    active_memtable = (b'b' ∷ [], value (2 ∷ [])) ∷ [];
    immutable_memtables = [];
    sstables = table.1 ∷ [];
    next_sstable_id = 2;
    wal_region_start = 0;
    manifest_len = 0;
  };
  container = record { file = table.0; header_seq = 1; header_slot = 0 };
}

engine-IsSnapshot : IsSnapshot crates (snapshot engine) (entries ∷ [])
engine-IsSnapshot = record {
  holds = (
    write-IsBuilt crates file 1 2 opts entries table.0 table.1 wrote (omega arith) entries-IsSorted,
    tt,
  );
  active = (tt, tt);
  immutable = tt;
}

pub engine-IsEngine : IsEngine crates engine (entries ∷ [])
engine-IsEngine = record { snap = engine-IsSnapshot; flushed = refl; fits = omega arith }

abbrev pub writes : Pending
writes = (b'a' ∷ [], none) ∷ (b'c' ∷ [], some (3 ∷ [])) ∷ []

pub writes-IsSorted : IsSorted writes
unfolding bytes_cmp
writes-IsSorted = ((refl, tt), (tt, tt))

scan_lem_example :
    (out : Pairs) × (collect 9 (
        new
          (scan_sources crates 9 (snapshot engine) (some writes) (included (b'a' ∷ [])) unbounded))
      ≡ ok out)
    × Scanned crates
        (snapshot engine)
        (entries ∷ [])
        engine-IsSnapshot
        (some writes)
        writes-IsSorted
        (included (b'a' ∷ []))
        unbounded
        out
scan_lem_example =
    scan_lem crates (snapshot engine) (entries ∷ []) engine-IsSnapshot (some writes) writes-IsSorted
      (included (b'a' ∷ [])) unbounded 9 (omega arith)

-- The backend that an operation leaves.
abbrev left : Outcome → LsmStorageBackend
left (done b) = b
left (failed e b) = b

abbrev flushed : LsmStorageBackend
flushed = left (flush crates manifest_bincode plain 9 quiet engine)

flushes : flush crates manifest_bincode plain 9 quiet engine ≡ done flushed
unfolding flush write write_entries write_entry push add_entry start_state write_options
    encode_entry to_be encode_value finish_block close_block too_big compress_raw install attempt
flushes = refl

flush_lem_example : Keeps crates engine flushed
flush_lem_example =
    flush_lem crates manifest_bincode plain 9 quiet engine flushed (entries ∷ []) engine-IsEngine
      (omega arith) flushes

abbrev committed : LsmStorageBackend
committed = left (commit_pending crates manifest_bincode plain 9 quiet engine writes)

commits : commit_pending crates manifest_bincode plain 9 quiet engine writes ≡ done committed
unfolding commit_pending append frame memtable_byte_size value_size apply_writes BTreeMap.insert
    bytes_cmp flush write write_entries write_entry push add_entry start_state write_options
    encode_entry to_be encode_value finish_block close_block too_big compress_raw install attempt
commits = refl

commit_pending_lem_example : Publishes crates manifest_bincode plain 9 quiet engine writes committed
commit_pending_lem_example =
    commit_pending_lem crates manifest_bincode plain 9 quiet engine committed (entries ∷ []) writes
      engine-IsEngine writes-IsSorted (omega arith) (omega arith) commits

-- The merge reads the entries of the one table.
sources :
    table_sources crates 9 (newest_first engine.state.sstables) unbounded unbounded
    ≡ sources_of (entries ∷ [])
sources =
    table_sources-eq unbounded unbounded crates 9 (newest_first engine.state.sstables)
      (entries ∷ []) engine-IsSnapshot.holds (omega arith)
    ∙ (unfold range in_bounds in refl)

abbrev fresh : FreshContainer
fresh =
    elim (write_fresh_container crates manifest_bincode plain 9 quiet 2
      (new (sources_of (entries ∷ []))) (expected_entries engine.state.sstables)
      (write_options engine)) [
        | ok f ↦ f
        | err e ↦ record {
          file = [];
          handle = no_handle;
          manifest = record { next_sstable_id = 0; sstables = []; wal_region_start = 0 };
          manifest_len = 0;
        }
      ]

rewritten :
    write_fresh_container crates manifest_bincode plain 9 quiet 2
      (new (sources_of (entries ∷ [])))
      (expected_entries engine.state.sstables)
      (write_options engine)
    ≡ ok fresh
unfolding write_fresh_container collect new advance_from advance pull Heap.push consume discard
    remaining bytes_cmp write write_entries write_entry push add_entry start_state write_options
    encode_entry to_be encode_value finish_block close_block too_big compress_raw estimated_entries
rewritten = refl

abbrev compacted : LsmStorageBackend
compacted =
    swap_in crates manifest_bincode plain 9 quiet
      (record engine { state = record engine.state { next_sstable_id = 3 } }) fresh

compacts : compact_all crates manifest_bincode plain 9 quiet engine true ≡ done compacted
unfolding compact_all or_fault
compacts = rw (sources, rewritten) refl

compact_all_lem_example : Keeps crates engine compacted
compact_all_lem_example =
    compact_all_lem crates manifest_bincode plain 9 quiet engine compacted (entries ∷ []) true
      engine-IsEngine (omega arith) compacts
