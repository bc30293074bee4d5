-- ===== src/Examples/FailureRuns.antt =====
-- crates/bkndb-storage-lsm/src/engine/write.rs at a commit that is logged, and whose flush fails
-- while the manifest is written.
use bkndb.Prelude.{ℕ, ◌≡◌, ◌⊎◌, refl, arith, List, [], ◌∷◌, none, some}
use bkndb.Prelude.Order.{bytes_cmp}
use bkndb.Prelude.BTreeMap
use bkndb.Prelude.BigEndian.{to_be}
use bkndb.Error.{backend}
use bkndb.Lsm.Memtable.{memtable_byte_size, value_size}
use bkndb.Lsm.Wal.{append, frame}
use bkndb.Lsm.Sstable.{encode_entry, encode_value}
use bkndb.Lsm.Sstable.Writer.{push, add_entry, finish_block, close_block, too_big, compress_raw}
use bkndb.Lsm.Sstable.Write.{write, write_entries, write_entry, start_state}
use bkndb.Lsm.Engine.Faults.{Io, made, broken, attempt}
use bkndb.Lsm.Engine.{LsmStorageBackend, snapshot, lookup}
use bkndb.Lsm.Engine.Store.{
  Outcome, log_of, set_aside, apply_writes, write_options, flush, commit_pending, done, failed,
}
use bkndb.Lsm.Engine.Store.Failure.{SameReads, commit_pending_failed}
use bkndb.Examples.Fixtures.{plain}
use bkndb.Examples.Coding.{crates, manifest_bincode}
use bkndb.Examples.EngineRuns.{engine, engine-IsEngine, entries, writes, writes-IsSorted}

-- The manifest's write fails, and the file has one byte.
abbrev full_disk : Io
full_disk = record { log = none; table = none; publish = some (7 ∷ []); compaction = none }

abbrev outcome : Outcome
outcome = commit_pending crates manifest_bincode plain 9 full_disk engine writes

abbrev left_by : Outcome → LsmStorageBackend
left_by (done b) = b
left_by (failed e b) = b

abbrev damaged : LsmStorageBackend
damaged = left_by outcome

commit_fails : outcome ≡ failed backend damaged
unfolding commit_pending append frame memtable_byte_size value_size apply_writes BTreeMap.insert
    bytes_cmp flush write write_entries write_entry push add_entry start_state write_options
    encode_entry to_be encode_value finish_block close_block too_big compress_raw attempt set_aside
commit_fails = refl

commit_pending_failed_example :
    ((file : List ℕ) × (log_of crates manifest_bincode plain 9 full_disk engine writes
        ≡ broken backend file)
      × SameReads crates engine damaged)
    ⊎ ((file : List ℕ) × (log_of crates manifest_bincode plain 9 full_disk engine writes
          ≡ made file)
        × ((key : List ℕ)
            → lookup crates (snapshot damaged) none key
              ≡ lookup crates (snapshot engine) (some writes) key))
commit_pending_failed_example =
    commit_pending_failed crates manifest_bincode plain 9 full_disk engine damaged (entries ∷ [])
      writes backend engine-IsEngine writes-IsSorted (omega arith) commit_fails
