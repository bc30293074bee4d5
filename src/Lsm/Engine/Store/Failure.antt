-- ===== src/Lsm/Engine/Store/Failure.antt =====
-- crates/bkndb-storage-lsm/src/engine/write.rs: what readers find after an operation has failed.
use bkndb.Prelude.{
  ℕ, ◌+◌, ◌≡◌, refl, sym, ap, ◌∙◌, List, [], ◌∷◌, ◌++◌, Bool, false, ◌&&◌, ◌||◌, none, some, All,
  length, leb, or_else, Bool-cases, ◌⊎◌, inl, inr,
}
use bkndb.Prelude.Order.{bytes_ord}
use bkndb.Prelude.BTreeMap
use bkndb.Prelude.BTreeMap.{IsSorted, unbounded}
use bkndb.Error.{BknError, Result, ok, err}
use bkndb.Lsm.Codec.{Bincode}
use bkndb.Lsm.Memtable.{Entry, Memtable, live, memtable_byte_size}
use bkndb.Lsm.Manifest.{Manifest}
use bkndb.Lsm.Wal.{WalRecord}
use bkndb.Lsm.Merge.{new}
use bkndb.Lsm.Merge.Lists.{first_of}
use bkndb.Lsm.Sstable.Handle.{SstableHandle}
use bkndb.Lsm.Sstable.Block.{EntryFits}
use bkndb.Lsm.Sstable.Write.{Crates}
use bkndb.Lsm.Sstable.Write.Built.{write-IsBuilt}
use bkndb.Lsm.Engine.Faults.{Io, Attempt, made, broken, attempt, or_fault, attempt-made}
use bkndb.Lsm.Engine.{
  LsmStorageBackend, Pending, snapshot, newest_first, lookup, pending_entries, table_sources,
}
use bkndb.Lsm.Engine.Reads.{TableHolds, lookup_lem, newest_first-snoc}
use bkndb.Lsm.Engine.Store.{
  with_file, finish_publish, table_of, log_of, done, failed, FreshContainer, write_fresh_container,
  compact_all, swap_in, expected_entries, set_aside, install, finish_flush, flush_table, flush,
  with_writes, finish_commit, commit_pending, write_options,
}
use bkndb.Lsm.Engine.Store.Compact.{IsEngine}
use bkndb.Lsm.Engine.Store.Flush.{installed}
use bkndb.Lsm.Engine.Store.Commit.{written-Publishes}

-- The readers of both engines find the same.
abbrev pub SameReads : Crates → LsmStorageBackend → LsmStorageBackend → Type 0
SameReads c b b' = (key : List ℕ) → lookup c (snapshot b') none key ≡ lookup c (snapshot b) none key

module _ (c : Crates) (manifest_code : Bincode Manifest) (wal_code : Bincode WalRecord) (fuel : ℕ)
    (io : Io) where
  compact_all_failed :
      (b b' : LsmStorageBackend) (force : Bool) (e : BknError)
      → compact_all c manifest_code wal_code fuel io b force ≡ failed e b'
      → SameReads c b b'
  unfolding compact_all
  compact_all_failed b b' force e h key =
      elim (Bool-cases
        (leb 2 (length b.state.sstables) || (force && leb 1 (length b.state.sstables)))) [
          | inr skip ↦ absurd (cc (rw skip at h))
          | inl worth ↦
              go
                (or_fault io.compaction (
                  write_fresh_container c manifest_code wal_code fuel io b.state.next_sstable_id
                    (new (table_sources c fuel (newest_first b.state.sstables) unbounded unbounded))
                    (expected_entries b.state.sstables) (write_options b)))
                (rw worth at h)
        ]
    where
      counted : LsmStorageBackend
      counted = record b {
        state = record b.state { next_sstable_id = b.state.next_sstable_id + 1 };
      }

      go :
          (r : Result FreshContainer)
          → (elim r [
            | err x ↦ failed x counted
            | ok fresh ↦ done (swap_in c manifest_code wal_code fuel io counted fresh)
          ])
            ≡ failed e b'
          → lookup c (snapshot b') none key ≡ lookup c (snapshot b) none key
      go (ok fresh) h = absurd (cc)
      go (err x) h =
          (let same : counted ≡ b' = cc in ap (λ n. lookup c (snapshot n) none key) (sym same))

  set_aside_same :
      (b : LsmStorageBackend) (tables : List (List Entry))
      → IsEngine c b tables
      → SameReads c b (set_aside c manifest_code wal_code fuel io b)
  unfolding set_aside
  set_aside_same b tables i key =
      lookup_lem c _ none tables key i.snap.holds
      ∙ ap (λ o. ok (live o)) moved
      ∙ sym (lookup_lem c (snapshot b) none tables key i.snap.holds)
    where
      moved :
          first_of
            (([] ∷ newest_first (b.state.immutable_memtables ++ b.state.active_memtable ∷ []))
              ++ newest_first tables)
            key
          ≡ first_of
              ((b.state.active_memtable ∷ newest_first b.state.immutable_memtables)
                ++ newest_first tables)
              key
      moved =
          rw (newest_first-snoc b.state.immutable_memtables b.state.active_memtable)
            (unfold first_of BTreeMap.get or_else in refl)

  flush_failed :
      (b b' : LsmStorageBackend) (tables : List (List Entry)) (e : BknError)
      → IsEngine c b tables
      → flush c manifest_code wal_code fuel io b ≡ failed e b'
      → SameReads c b b'
  unfolding flush
  flush_failed b b' tables e i h key = go b.state.active_memtable refl h
    where
      aside :
          (file : List ℕ)
          → with_file (set_aside c manifest_code wal_code fuel io b) file ≡ b'
          → SameReads c b b'
      aside file same key =
          ap (λ n. lookup c (snapshot n) none key) (sym same) ∙ set_aside_same b tables i key

      last :
          (t : List ℕ × SstableHandle) (p : Attempt LsmStorageBackend)
          → attempt io.publish t.0 (ok (install c manifest_code wal_code fuel io b t)) ≡ p
          → TableHolds c t.1 b.state.active_memtable
          → finish_publish c manifest_code wal_code fuel io b p ≡ failed e b'
          → SameReads c b b'
      last t (broken x file) p holds h key = aside file (cc) key
      last t (made now) p holds h key =
          let same : install c manifest_code wal_code fuel io b t ≡ now =
            (let e =
                attempt-made io.publish t.0 (ok (install c manifest_code wal_code fuel io b t)) now
                  p in
              cc) in
          let (engine, reads) = installed c manifest_code wal_code fuel io b tables t i holds in
          elim (Bool-cases (leb b.options.compaction_trigger_files (length now.state.sstables))) [
            | inr few ↦ absurd (cc (rw few at h))
            | inl full ↦
                compact_all_failed now b' false e (rw full at h) key
                ∙ ap (λ n. lookup c (snapshot n) none key) (sym same)
                ∙ reads key
          ]

      filled :
          (r : Attempt (List ℕ × SstableHandle))
          → table_of c manifest_code wal_code fuel io b b.state.active_memtable ≡ r
          → finish_flush c manifest_code wal_code fuel io b r ≡ failed e b'
          → SameReads c b b'
      filled (broken x file) w h = aside file (cc)
      filled (made t) w h =
          last t _ refl
            (write-IsBuilt c b.container.file b.state.next_sstable_id
              (length b.state.active_memtable) (write_options b) b.state.active_memtable t.0 t.1
              (attempt-made io.table _ _ t w) i.fits i.snap.active)
            h

      go :
          (table : Memtable)
          → b.state.active_memtable ≡ table
          → flush_table c manifest_code wal_code fuel io b table ≡ failed e b'
          → lookup c (snapshot b') none key ≡ lookup c (snapshot b) none key
      go [] same h = absurd (cc)
      go (x ∷ es) same h =
          filled (table_of c manifest_code wal_code fuel io b (x ∷ es))
            (ap (table_of c manifest_code wal_code fuel io b) same) h key

  -- After a commit on an engine at rest that fails, readers find what they found before where the
  -- write of the log failed, and all of its writes where the log was written, so that the flush or the
  -- compaction failed: with an error of the code or of the operating system, and whatever bytes that
  -- left in the file, if the writes ascend and have lengths below 2^32.
  pub commit_pending_failed :
      (b b' : LsmStorageBackend) (tables : List (List Entry)) (pending : Pending) (e : BknError)
      → IsEngine c b tables
      → IsSorted pending
      → All EntryFits (pending_entries pending)
      → commit_pending c manifest_code wal_code fuel io b pending ≡ failed e b'
      → ((file : List ℕ) × (log_of c manifest_code wal_code fuel io b pending ≡ broken e file)
          × SameReads c b b')
        ⊎ ((file : List ℕ) × (log_of c manifest_code wal_code fuel io b pending ≡ made file)
            × ((key : List ℕ)
                → lookup c (snapshot b') none key ≡ lookup c (snapshot b) (some pending) key))
  unfolding commit_pending
  commit_pending_failed b b' tables [] e i s f h = absurd (cc)
  commit_pending_failed b b' tables (w ∷ pending) e i s f h =
      finished (log_of c manifest_code wal_code fuel io b (w ∷ pending)) h
    where
      finished :
          (r : Attempt (List ℕ))
          → finish_commit c manifest_code wal_code fuel io b (w ∷ pending) r ≡ failed e b'
          → ((file : List ℕ) × (r ≡ broken e file) × SameReads c b b')
            ⊎ ((file : List ℕ) × (r ≡ made file)
                × ((key : List ℕ)
                    → lookup c (snapshot b') none key
                      ≡ lookup c (snapshot b) (some (w ∷ pending)) key))
      finished (broken x file) h =
          (let same : with_file b file ≡ b' = cc in
            let error : broken x file ≡ broken e file = cc in
            inl ((file, error, λ key. ap (λ n. lookup c (snapshot n) none key) (sym same))))
      finished (made file) h =
          let now : LsmStorageBackend =
            with_writes c manifest_code wal_code fuel io b (w ∷ pending) file in
          let (engine, reads) =
            written-Publishes c manifest_code wal_code fuel io b tables (w ∷ pending) file i s f in
          elim (Bool-cases
            (leb b.options.memtable_flush_bytes (memtable_byte_size now.state.active_memtable))) [
              | inr small ↦ absurd (cc (rw small at h))
              | inl large ↦ inr (
                  (
                    file,
                    refl,
                    λ key. flush_failed now b' tables e engine (rw large at h) key ∙ reads key,
                  ))
            ]
