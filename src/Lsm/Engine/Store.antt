-- ===== src/Lsm/Engine/Store.antt =====
-- crates/bkndb-storage-lsm/src/engine/write.rs, and `write_fresh_container` of mod.rs: commit, flush
-- and compaction. A parameter tells which writes the operating system fails, and what they leave.
pub mod Fits
pub mod Compact
pub mod Flush
pub mod Commit
pub mod Failure
pub mod Recover
use bkndb.Prelude.{
  ℕ, suc, ◌+◌, ◌*◌, List, [], ◌∷◌, ◌++◌, Bool, true, false, ◌&&◌, ◌||◌, Option, none, some, length,
  leb, replicate, if◌then◌else◌,
}
use bkndb.Prelude.Order.{bytes_cmp, bytes_ord}
use bkndb.Prelude.BTreeMap.{Bound, insert, unbounded}
use bkndb.Error.{BknError, backend, Result, ok, err, ◌>>=◌}
use bkndb.Lsm.Codec.{Bincode}
use bkndb.Lsm.Memtable.{Entry, Memtable, LsmValue, value, memtable_byte_size}
use bkndb.Lsm.Wal.{WalRecord, append}
use bkndb.Lsm.Container.{body_start, write_blob_at, write_header}
use bkndb.Lsm.Manifest.{Manifest, SstableRef, encode}
use bkndb.Lsm.Merge.{MergeIter, collect, new}
use bkndb.Lsm.Merge.Heads.{all_ok}
use bkndb.Lsm.Merge.Collect.{Pairs}
use bkndb.Lsm.Sstable.Handle.{SstableHandle}
use bkndb.Lsm.Sstable.Writer.{WriteOptions, unwrap_or}
use bkndb.Lsm.Sstable.Write.{Crates, write}
use bkndb.Lsm.Engine.Faults.{Io, Attempt, made, broken, attempt, or_fault}
use bkndb.Lsm.Engine.{
  LsmOptions, EngineState, ContainerWriter, LsmStorageBackend, Pending, newest_first, lsm_value,
  table_sources,
}

-- How an operation ends: the backend as it is left, with the error where there is one.
pub data Outcome : Type 0 where
  done : LsmStorageBackend → Outcome
  failed : BknError → LsmStorageBackend → Outcome

-- The backend as it is, but for the bytes of the container file.
abbrev pub with_file : LsmStorageBackend → List ℕ → LsmStorageBackend
with_file b file = record b { container = record b.container { file = file } }

pub record FreshContainer : Type 0 where
  pub file : List ℕ
  pub handle : SstableHandle
  pub manifest : Manifest
  pub manifest_len : ℕ

unfoldable pub write_options : LsmStorageBackend → WriteOptions
write_options b = record {
  block_size = b.options.block_size_bytes;
  compress = b.options.compression;
}

abbrev pub ref_of : SstableHandle → SstableRef
ref_of h = record { generation = h.generation; offset = h.base_offset; length = h.blob_len }

abbrev pub refs_of : List SstableHandle → List SstableRef
refs_of [] = []
refs_of (h ∷ hs) = ref_of h ∷ refs_of hs

-- The loop of `commit_pending` over the writes.
unfoldable pub apply_writes : Pending → Memtable → Memtable
apply_writes [] table = table
apply_writes ((k, v) ∷ pending) table = apply_writes pending (insert table k (lsm_value v))

-- The memtable that `open_with_options` builds from the records of the log.
unfoldable pub recover : List WalRecord → Memtable → Memtable
recover [] table = table
recover (r ∷ records) table = recover records (apply_writes r.entries table)

abbrev pub values_of : Pairs → List Entry
values_of [] = []
values_of ((k, v) ∷ out) = (k, value v) ∷ values_of out

unfoldable pub estimated_entries : SstableHandle → ℕ
estimated_entries h = unwrap_or h.entry_count (length h.blocks * 16)

abbrev pub expected_entries : List SstableHandle → ℕ
expected_entries [] = 0
expected_entries (h ∷ hs) = estimated_entries h + expected_entries hs

-- Fuel bounds the entries that a merge reads.
module _ (c : Crates) (manifest_code : Bincode Manifest) (wal_code : Bincode WalRecord) (fuel : ℕ)
    (io : Io) where
  -- The manifest behind a table, which says where the log begins: right behind the manifest, whose
  -- length does not depend on that.
  unfoldable pub manifest_behind : SstableHandle → ℕ → List SstableRef → Manifest
  manifest_behind h next_id refs =
      let placeholder : Manifest = record {
        next_sstable_id = next_id;
        sstables = refs;
        wal_region_start = 0;
      } in
      record placeholder {
        wal_region_start = h.base_offset + h.blob_len + length (encode manifest_code placeholder);
      }

  unfoldable pub write_fresh_container : ℕ → MergeIter → ℕ → WriteOptions → Result FreshContainer
  write_fresh_container generation entries expected_items opts = collect fuel entries >>= λ out.
      write c (replicate body_start 0) generation (all_ok (values_of out)) expected_items opts
      >>= λ t.
          let manifest = manifest_behind t.1 (generation + 1) (ref_of t.1 ∷ []) in
          let bytes = encode manifest_code manifest in
          let manifest_offset = t.1.base_offset + t.1.blob_len in
          let written =
            write_header c.crc32 (write_blob_at t.0 manifest_offset bytes) 0 1 manifest_offset
              bytes in
          ok (record {
            file = written.0;
            handle = t.1;
            manifest = manifest;
            manifest_len = length bytes;
          })

  -- The backend with the container that replaces the old one.
  unfoldable pub swap_in : LsmStorageBackend → FreshContainer → LsmStorageBackend
  swap_in b fresh = record b {
    state = record b.state {
      sstables = fresh.handle ∷ [];
      wal_region_start = fresh.manifest.wal_region_start;
      next_sstable_id = fresh.manifest.next_sstable_id;
      manifest_len = fresh.manifest_len;
    };
    container = record { file = fresh.file; header_seq = 1; header_slot = 0 };
  }

  unfoldable pub compact_all : LsmStorageBackend → Bool → Outcome
  compact_all b force =
      let sstables = b.state.sstables in
      if leb 2 (length sstables) || (force && leb 1 (length sstables))
      then (let sources = table_sources c fuel (newest_first sstables) unbounded unbounded in
          let new_generation = b.state.next_sstable_id in
          let b' = record b { state = record b.state { next_sstable_id = new_generation + 1 } } in
          elim (or_fault io.compaction (
            write_fresh_container new_generation (new sources) (expected_entries sstables)
              (write_options b))) [ err e ↦ failed e b' | ok fresh ↦ done (swap_in b' fresh) ])
      else done b

  -- The memtable that is flushed waits among the immutable ones.
  unfoldable pub set_aside : LsmStorageBackend → LsmStorageBackend
  set_aside b = record b {
    state = record b.state {
      active_memtable = [];
      immutable_memtables = b.state.immutable_memtables ++ b.state.active_memtable ∷ [];
      next_sstable_id = b.state.next_sstable_id + 1;
    };
  }

  -- The manifest and the header behind a new table, and the table in place of the memtable that it
  -- holds. That memtable was put among the immutable ones and is taken out again, which cancels.
  unfoldable pub install : LsmStorageBackend → List ℕ × SstableHandle → LsmStorageBackend
  install b t =
      let refs = refs_of b.state.sstables ++ ref_of t.1 ∷ [] in
      let manifest = manifest_behind t.1 (b.state.next_sstable_id + 1) refs in
      let bytes = encode manifest_code manifest in
      let manifest_offset = t.1.base_offset + t.1.blob_len in
      let written =
        write_header c.crc32 (write_blob_at t.0 manifest_offset bytes) b.container.header_seq
          b.container.header_slot manifest_offset bytes in
      record b {
        state = record {
          active_memtable = [];
          immutable_memtables = b.state.immutable_memtables;
          sstables = b.state.sstables ++ t.1 ∷ [];
          next_sstable_id = b.state.next_sstable_id + 1;
          wal_region_start = manifest.wal_region_start;
          manifest_len = length bytes;
        };
        container = record { file = written.0; header_seq = written.1; header_slot = written.2 };
      }

  -- `flush` once the manifest and the header are written, or not, and before that, once the table of
  -- the memtable is written, or not.
  abbrev pub finish_publish : LsmStorageBackend → Attempt LsmStorageBackend → Outcome
  finish_publish b (broken e file) = failed e (with_file (set_aside b) file)
  finish_publish b (made b') =
      if leb b.options.compaction_trigger_files (length b'.state.sstables)
      then compact_all b' false
      else done b'

  abbrev pub finish_flush : LsmStorageBackend → Attempt (List ℕ × SstableHandle) → Outcome
  finish_flush b (broken e file) = failed e (with_file (set_aside b) file)
  finish_flush b (made t) = finish_publish b (attempt io.publish t.0 (ok (install b t)))

  abbrev pub table_of : LsmStorageBackend → Memtable → Attempt (List ℕ × SstableHandle)
  table_of b table = attempt io.table (unwrap_or io.table b.container.file) (
      write c b.container.file b.state.next_sstable_id (all_ok table) (length table)
        (write_options b))

  abbrev pub flush_table : LsmStorageBackend → Memtable → Outcome
  flush_table b [] = done b
  flush_table b (e ∷ es) = finish_flush b (table_of b (e ∷ es))

  unfoldable pub flush : LsmStorageBackend → Outcome
  flush b = flush_table b b.state.active_memtable

  -- The engine with the writes in its active memtable and the log in the file.
  abbrev pub with_writes : LsmStorageBackend → Pending → List ℕ → LsmStorageBackend
  with_writes b pending file = record b {
    state = record b.state { active_memtable = apply_writes pending b.state.active_memtable };
    container = record b.container { file = file };
  }

  -- `commit_pending` once the log is written, or not.
  abbrev pub finish_commit : LsmStorageBackend → Pending → Attempt (List ℕ) → Outcome
  finish_commit b pending (broken e file) = failed e (with_file b file)
  finish_commit b pending (made file) =
      let b' = with_writes b pending file in
      if leb b.options.memtable_flush_bytes (memtable_byte_size b'.state.active_memtable)
      then flush b'
      else done b'

  -- The call of `append`, which checks the size of the record before it writes.
  abbrev pub log_of : LsmStorageBackend → Pending → Attempt (List ℕ)
  log_of b pending =
      attempt io.log b.container.file
        (append wal_code c.crc32 b.container.file (record { entries = pending }))

  unfoldable pub commit_pending : LsmStorageBackend → Pending → Outcome
  commit_pending b [] = done b
  commit_pending b (w ∷ pending) = finish_commit b (w ∷ pending) (log_of b (w ∷ pending))

  unfoldable pub force_compact : LsmStorageBackend → Outcome
  force_compact b = elim (flush b) [ failed e b' ↦ failed e b' | done b' ↦ compact_all b' true ]
