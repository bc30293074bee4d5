-- ===== src/Lsm/Engine/Store/Flush.antt =====
-- crates/bkndb-storage-lsm/src/engine/write.rs: a flush keeps every value.
use mathlib.Core.Path.{subst}
use bkndb.Prelude.{
  ℕ, ◌+◌, ◌<◌, ◌≡◌, refl, sym, ap, ◌∙◌, arith, List, [], ◌∷◌, ◌++◌, false, none, length, leb,
  or_else, Bool-cases, inl, inr,
}
use bkndb.Prelude.Order.{bytes_ord}
use bkndb.Prelude.BTreeMap
use bkndb.Prelude.BTreeMap.{IsSorted}
use bkndb.Error.{ok}
use bkndb.Lsm.Codec.{Bincode}
use bkndb.Lsm.Memtable.{Entry, Memtable, live}
use bkndb.Lsm.Manifest.{Manifest}
use bkndb.Lsm.Wal.{WalRecord}
use bkndb.Lsm.Merge.Lists.{first_of, total}
use bkndb.Lsm.Sstable.Handle.{SstableHandle}
use bkndb.Lsm.Sstable.Write.{Crates}
use bkndb.Lsm.Sstable.Write.Built.{write-IsBuilt}
use bkndb.Lsm.Engine.Faults.{Io, Attempt, made, broken, attempt, attempt-made}
use bkndb.Lsm.Engine.{LsmStorageBackend, snapshot, newest_first, lookup}
use bkndb.Lsm.Engine.Reads.{TableHolds, AllTables, AllTables-append, lookup_lem, newest_first-snoc}
use bkndb.Lsm.Engine.Scans.{total-append}
use bkndb.Lsm.Engine.Store.{
  done, install, finish_publish, table_of, finish_flush, flush_table, flush, write_options,
}
use bkndb.Lsm.Engine.Store.Compact.{IsEngine, Keeps, compact_all_lem}

pub Keeps-trans : (c : Crates) (a b d : LsmStorageBackend) → Keeps c a b → Keeps c b d → Keeps c a d
Keeps-trans c a b d (t, i, same) (u, j, same') = (u, j, λ key. same' key ∙ same key)

module _ (c : Crates) (manifest_code : Bincode Manifest) (wal_code : Bincode WalRecord) (fuel : ℕ)
    (io : Io) where
  -- The table of the memtable stands where the memtable stood.
  pub installed :
      (b : LsmStorageBackend) (tables : List (List Entry)) (t : List ℕ × SstableHandle)
      → IsEngine c b tables
      → TableHolds c t.1 b.state.active_memtable
      → IsEngine c
          (install c manifest_code wal_code fuel io b t)
          (tables ++ b.state.active_memtable ∷ [])
        × ((key : List ℕ)
            → lookup c (snapshot (install c manifest_code wal_code fuel io b t)) none key
              ≡ lookup c (snapshot b) none key)
  unfolding install
  installed b tables t i holds = (
    record {
      snap = record { holds = all; active = tt; immutable = i.snap.immutable };
      flushed = i.flushed;
      fits = tt;
    },
    λ key.
        lookup_lem c _ none (tables ++ b.state.active_memtable ∷ []) key all
        ∙ ap (λ o. ok (live o)) (value_same key)
        ∙ sym (lookup_lem c (snapshot b) none tables key i.snap.holds),
  )
    where
      all : AllTables c (b.state.sstables ++ t.1 ∷ []) (tables ++ b.state.active_memtable ∷ [])
      all =
          AllTables-append c b.state.sstables (t.1 ∷ []) tables (b.state.active_memtable ∷ [])
            i.snap.holds (holds, tt)

      value_same :
          (key : List ℕ)
          → first_of
              (([] ∷ newest_first b.state.immutable_memtables)
                ++ newest_first (tables ++ b.state.active_memtable ∷ []))
              key
            ≡ first_of
                ((b.state.active_memtable ∷ newest_first b.state.immutable_memtables)
                  ++ newest_first tables)
                key
      value_same key =
          rw (i.flushed, newest_first-snoc tables b.state.active_memtable)
            (unfold first_of BTreeMap.get or_else in refl)

  -- `flush` on an engine at rest, where it succeeds, leaves an engine at rest whose readers find what
  -- they found before, if the fuel exceeds the entries of the memtable and of the tables.
  pub flush_lem :
      (b b' : LsmStorageBackend) (tables : List (List Entry))
      → IsEngine c b tables
      → length b.state.active_memtable + total tables < fuel
      → flush c manifest_code wal_code fuel io b ≡ done b'
      → Keeps c b b'
  unfolding flush
  flush_lem b b' tables i f h = go b.state.active_memtable refl h
    where
      installed_b : List ℕ × SstableHandle → LsmStorageBackend
      installed_b t = install c manifest_code wal_code fuel io b t

      last :
          (t : List ℕ × SstableHandle) (p : Attempt LsmStorageBackend)
          → attempt io.publish t.0 (ok (installed_b t)) ≡ p
          → TableHolds c t.1 b.state.active_memtable
          → finish_publish c manifest_code wal_code fuel io b p ≡ done b'
          → Keeps c b b'
      last t (broken e file) p holds h = absurd (cc)
      last t (made now) p holds h =
          let same : installed_b t ≡ now =
            (let e = attempt-made io.publish t.0 (ok (installed_b t)) now p in cc) in
          let (engine, reads) = installed b tables t i holds in
          let kept : Keeps c b now =
            subst (Keeps c b) same (tables ++ b.state.active_memtable ∷ [], engine, reads) in
          let engine' : IsEngine c now (tables ++ b.state.active_memtable ∷ []) =
            subst (λ n. IsEngine c n (tables ++ b.state.active_memtable ∷ [])) same engine in
          elim (Bool-cases (leb b.options.compaction_trigger_files (length now.state.sstables))) [
            | inl full ↦ Keeps-trans c b now b' kept (
                compact_all_lem c manifest_code wal_code fuel io now b'
                  (tables ++ b.state.active_memtable ∷ []) false engine'
                  (omega (arith, f, total-append tables (b.state.active_memtable ∷ [])))
                  (rw full at h))
            | inr few ↦ (let e : now ≡ b' = cc (rw few at h) in subst (Keeps c b) e kept)
          ]

      filled :
          (r : Attempt (List ℕ × SstableHandle))
          → table_of c manifest_code wal_code fuel io b b.state.active_memtable ≡ r
          → finish_flush c manifest_code wal_code fuel io b r ≡ done b'
          → Keeps c b b'
      filled (broken e file) w h = absurd (cc)
      filled (made t) w h =
          last t _ refl
            (write-IsBuilt c b.container.file b.state.next_sstable_id
              (length b.state.active_memtable) (write_options b) b.state.active_memtable t.0 t.1
              (attempt-made io.table _ _ t w) i.fits i.snap.active)
            h

      go :
          (table : Memtable)
          → b.state.active_memtable ≡ table
          → flush_table c manifest_code wal_code fuel io b table ≡ done b'
          → Keeps c b b'
      go [] same h = (let last : b ≡ b' = cc in subst (Keeps c b) last (tables, i, λ key. refl))
      go (e ∷ es) same h =
          filled (table_of c manifest_code wal_code fuel io b (e ∷ es))
            (ap (table_of c manifest_code wal_code fuel io b) same) h
