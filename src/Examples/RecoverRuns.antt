-- ===== src/Examples/RecoverRuns.antt =====
-- crates/bkndb-storage-lsm/src/engine: two commits of a new database, and their replay.
use bkndb.Prelude.{◌<◌, ◌^◌, ◌≡◌, refl, arith, [], ◌∷◌, true, some, length}
use bkndb.Prelude.BigEndian.{to_be}
use bkndb.Prelude.BTreeMap
use bkndb.Prelude.Order.{bytes_cmp}
use bkndb.Lsm.Memtable.{memtable_byte_size, value_size}
use bkndb.Lsm.Wal.{append, frame, replay_from}
use bkndb.Lsm.Engine.Faults.{attempt}
use bkndb.Lsm.Engine.{LsmStorageBackend, Pending}
use bkndb.Lsm.Engine.Store.{Outcome, done, failed, apply_writes, recover, commit_pending}
use bkndb.Lsm.Engine.Store.Recover.{Logged, recover_lem}
use bkndb.Examples.Fixtures.{plain}
use bkndb.Examples.Coding.{crates, manifest_bincode, quiet}
use bkndb.Examples.EngineRuns.{file, writes}

abbrev created : LsmStorageBackend
created = record {
  options = record {
    memtable_flush_bytes = 1000;
    compaction_trigger_files = 9;
    block_size_bytes = 8;
    compression = true;
  };
  state = record {
    active_memtable = [];
    immutable_memtables = [];
    sstables = [];
    next_sstable_id = 1;
    wal_region_start = 128;
    manifest_len = 0;
  };
  container = record { file = file; header_seq = 1; header_slot = 0 };
}

abbrev after : Outcome → LsmStorageBackend
after (done b) = b
after (failed e b) = b

abbrev again : Pending
again = (b'a' ∷ [], some (4 ∷ [])) ∷ []

abbrev first : LsmStorageBackend
first = after (commit_pending crates manifest_bincode plain 9 quiet created writes)

abbrev second : LsmStorageBackend
second = after (commit_pending crates manifest_bincode plain 9 quiet first again)

both-Logged : Logged crates manifest_bincode plain 9 quiet created (writes ∷ again ∷ []) second
unfolding commit_pending append frame memtable_byte_size value_size apply_writes BTreeMap.insert
    bytes_cmp to_be attempt
both-Logged = (first, refl, refl, (second, refl, refl, refl))

short : length second.container.file < 2 ^ 64
unfolding commit_pending append frame memtable_byte_size value_size apply_writes BTreeMap.insert
    bytes_cmp to_be attempt
short = omega arith

recover_lem_example :
    let replayed =
      replay_from plain crates.crc32 second.container.file second.state.wal_region_start in
    (recover replayed.0 [] ≡ second.state.active_memtable)
    × (replayed.1 ≡ length second.container.file)
recover_lem_example =
    recover_lem crates manifest_bincode plain 9 quiet created second (writes ∷ again ∷ []) refl refl
      both-Logged short
