-- ===== src/Lsm/Engine/Store/Compact.antt =====
-- crates/bkndb-storage-lsm/src/engine/write.rs: a compaction keeps every value.
use mathlib.Core.Path.{subst}
use bkndb.Prelude.{
  ℕ, ◌+◌, ◌<◌, ◌≤◌, ◌≡◌, refl, sym, ap, ◌∙◌, arith, List, [], ◌∷◌, ◌++◌, Bool, ◌&&◌, ◌||◌, Option,
  none, some, All, length, leb, replicate, or_else, or_else-none, Bool-cases, inl, inr,
}
use bkndb.Prelude.Order.{bytes_ord}
use bkndb.Prelude.BTreeMap
use bkndb.Prelude.BTreeMap.{Bound, unbounded, range, in_bounds, IsSorted}
use bkndb.Error.{Result, ok, err, bind-eq-ok}
use bkndb.Lsm.Codec.{Bincode}
use bkndb.Lsm.Container.{body_start}
use bkndb.Lsm.Memtable.{Entry, LsmValue, live}
use bkndb.Lsm.Manifest.{Manifest}
use bkndb.Lsm.Wal.{WalRecord}
use bkndb.Lsm.Merge.{collect, new}
use bkndb.Lsm.Merge.Heads.{all_ok}
use bkndb.Lsm.Merge.Lists.{first_of, total}
use bkndb.Lsm.Merge.Start.{sources_of, merge_lem}
use bkndb.Lsm.Sstable.Block.{EntryFits}
use bkndb.Lsm.Sstable.Writer.{WriteOptions}
use bkndb.Lsm.Sstable.Write.{Crates, write}
use bkndb.Lsm.Sstable.Write.Built.{write-IsBuilt}
use bkndb.Lsm.Engine.Faults.{Io, or_fault, or_fault-ok}
use bkndb.Lsm.Engine.{LsmStorageBackend, snapshot, newest_first, table_sources, lookup}
use bkndb.Lsm.Engine.Reads.{
  TableHolds, AllTables-newest_first, AllTables-IsSorted, All-newest_first, lookup_lem,
  first_of-append,
}
use bkndb.Lsm.Engine.Scans.{IsSnapshot, ranges, table_sources-eq}
use bkndb.Lsm.Engine.Store.{
  done, failed, FreshContainer, write_fresh_container, compact_all, swap_in, values_of,
  write_options, expected_entries,
}
use bkndb.Lsm.Engine.Store.Fits.{tables_fit, merged_fit, values_of-IsSorted, live-values_of}

range_all : (l : List Entry) → range l unbounded unbounded ≡ l
unfolding range in_bounds
range_all [] = refl
range_all (e ∷ l) = ap (◌∷◌ e) (range_all l)

ranges_all : (ls : List (List Entry)) → ranges unbounded unbounded ls ≡ ls
ranges_all [] = refl
ranges_all (l ∷ ls) = rw (range_all l, ranges_all ls) refl

live-or_else_cong :
    (o a b : Option LsmValue) → live a ≡ live b → live (or_else o a) ≡ live (or_else o b)
unfolding or_else live
live-or_else_cong none a b h = h
live-or_else_cong (some v) a b h = refl

total-newest_first : (ts : List (List Entry)) → total (newest_first ts) ≡ total ts
total-newest_first [] = omega arith
total-newest_first (t ∷ ts) = omega (arith, total-snoc (newest_first ts), total-newest_first ts)
  where
    total-snoc : (us : List (List Entry)) → total (us ++ t ∷ []) ≡ length t + total us
    total-snoc [] = omega arith
    total-snoc (u ∷ us) = omega (arith, total-snoc us)

-- An engine at rest: every memtable but the active one is in a table, and the tables hold the given
-- entries, each list ascending and with lengths below 2^32.
pub record IsEngine (c : Crates) (b : LsmStorageBackend) (tables : List (List Entry)) : Type 0 where
  pub snap : IsSnapshot c (snapshot b) tables
  pub flushed : b.state.immutable_memtables ≡ []
  pub fits : All EntryFits b.state.active_memtable

-- The second engine is at rest, and its readers find what those of the first find.
abbrev pub Keeps : Crates → LsmStorageBackend → LsmStorageBackend → Type 0
Keeps c b b' =
    (tables : List (List Entry)) × IsEngine c b' tables
    × ((key : List ℕ) → lookup c (snapshot b') none key ≡ lookup c (snapshot b) none key)

module _ (c : Crates) (manifest_code : Bincode Manifest) (wal_code : Bincode WalRecord) (fuel : ℕ)
    (io : Io) where
  fresh_table :
      (ls : List (List Entry)) (generation n : ℕ) (opts : WriteOptions) (fresh : FreshContainer)
      → write_fresh_container c manifest_code wal_code fuel io generation
          (new (sources_of ls))
          n
          opts
        ≡ ok fresh
      → All IsSorted ls
      → All (All EntryFits) ls
      → total ls ≤ fuel
      → (t : List Entry) × TableHolds c fresh.handle t
        × ((key : List ℕ) → live (BTreeMap.get t key) ≡ live (first_of ls key))
  unfolding write_fresh_container
  fresh_table ls generation n opts fresh h s fits f =
      let (out, merged, is_merged) = merge_lem ls fuel f s in
      let (out', merged', h') = bind-eq-ok (collect fuel (new (sources_of ls))) _ h in
      let same : out' ≡ out = cc in
      let (t, wrote, h'') =
        bind-eq-ok (write c (replicate body_start 0) generation (all_ok (values_of out')) n opts) _
          h' in
      let handle : t.1 ≡ fresh.handle = cc in
      let wrote' : write c (replicate body_start 0) generation (all_ok (values_of out)) n opts
          ≡ ok (t.0, t.1) =
        rw same at wrote in
      let (ess, built, e) =
        write-IsBuilt c (replicate body_start 0) generation n opts (values_of out) t.0 t.1 wrote'
          (merged_fit ls out fits is_merged.0 is_merged.1) (values_of-IsSorted out is_merged.0) in
      (
        values_of out,
        subst (λ x. TableHolds c x (values_of out)) handle (ess, built, e),
        λ key. live-values_of out key ∙ is_merged.1 key,
      )

  swapped :
      (b : LsmStorageBackend) (tables : List (List Entry)) (fresh : FreshContainer) (t : List Entry)
      → IsEngine c b tables
      → TableHolds c fresh.handle t
      → ((key : List ℕ) → live (BTreeMap.get t key) ≡ live (first_of (newest_first tables) key))
      → Keeps c b (swap_in c manifest_code wal_code fuel io b fresh)
  unfolding swap_in
  swapped b tables fresh t i holds same = (
    t ∷ [],
    record {
      snap = record { holds = (holds, tt); active = i.snap.active; immutable = i.snap.immutable };
      flushed = i.flushed;
      fits = i.fits;
    },
    λ key.
        lookup_lem c _ none (t ∷ []) key (holds, tt)
        ∙ ap ok (value_same key)
        ∙ sym (lookup_lem c (snapshot b) none tables key i.snap.holds),
  )
    where
      memtables : List (List Entry)
      memtables = b.state.active_memtable ∷ newest_first b.state.immutable_memtables

      value_same :
          (key : List ℕ)
          → live (first_of (memtables ++ t ∷ []) key)
            ≡ live (first_of (memtables ++ newest_first tables) key)
      value_same key =
          rw
            (
              first_of-append memtables (t ∷ []) key,
              first_of-append memtables (newest_first tables) key,
            )
            (live-or_else_cong (first_of memtables key) (first_of (t ∷ []) key)
              (first_of (newest_first tables) key) (ap live (one_table key) ∙ same key))
        where
          one_table : (key : List ℕ) → first_of (t ∷ []) key ≡ BTreeMap.get t key
          one_table key = unfold first_of in or_else-none (BTreeMap.get t key)

  -- `compact_all` on an engine at rest, where it succeeds, leaves an engine at rest whose readers find
  -- what they found before, if the fuel exceeds the entries of the tables.
  pub compact_all_lem :
      (b b' : LsmStorageBackend) (tables : List (List Entry)) (force : Bool)
      → IsEngine c b tables
      → total tables < fuel
      → compact_all c manifest_code wal_code fuel io b force ≡ done b'
      → Keeps c b b'
  unfolding compact_all
  compact_all_lem b b' tables force i f h =
      elim (Bool-cases
        (leb 2 (length b.state.sstables) || (force && leb 1 (length b.state.sstables)))) [
          | inr skip ↦
              let same : b ≡ b' = cc (rw skip at h) in
              (
                tables,
                subst (λ x. IsEngine c x tables) same i,
                λ key. ap (λ x. lookup c (snapshot x) none key) (sym same),
              )
          | inl worth ↦
              go
                (or_fault io.compaction (
                  write_fresh_container c manifest_code wal_code fuel io b.state.next_sstable_id
                    (new (table_sources c fuel (newest_first b.state.sstables) unbounded unbounded))
                    (expected_entries b.state.sstables) (write_options b)))
                refl (rw worth at h)
        ]
    where
      counted : LsmStorageBackend
      counted = record b {
        state = record b.state { next_sstable_id = b.state.next_sstable_id + 1 };
      }

      sources :
          table_sources c fuel (newest_first b.state.sstables) unbounded unbounded
          ≡ sources_of (newest_first tables)
      sources =
          table_sources-eq unbounded unbounded c fuel (newest_first b.state.sstables)
            (newest_first tables) (AllTables-newest_first c b.state.sstables tables i.snap.holds)
            (omega (arith, f, total-newest_first tables))
          ∙ ap sources_of (ranges_all (newest_first tables))

      go :
          (r : Result FreshContainer)
          → or_fault io.compaction (
              write_fresh_container c manifest_code wal_code fuel io b.state.next_sstable_id
                (new (table_sources c fuel (newest_first b.state.sstables) unbounded unbounded))
                (expected_entries b.state.sstables)
                (write_options b))
            ≡ r
          → (elim r [
            | err e ↦ failed e counted
            | ok fresh ↦ done (swap_in c manifest_code wal_code fuel io counted fresh)
          ])
            ≡ done b'
          → Keeps c b b'
      go (err e) w h = absurd (cc)
      go (ok fresh) w h =
          let made_fresh : write_fresh_container c manifest_code wal_code fuel io
                b.state.next_sstable_id
                (new (table_sources c fuel (newest_first b.state.sstables) unbounded unbounded))
                (expected_entries b.state.sstables) (write_options b)
              ≡ ok fresh =
            or_fault-ok io.compaction _ fresh w in
          let w' : write_fresh_container c manifest_code wal_code fuel io b.state.next_sstable_id
                (new (sources_of (newest_first tables))) (expected_entries b.state.sstables)
                (write_options b)
              ≡ ok fresh =
            rw sources at made_fresh in
          let (t, holds, same) =
            fresh_table (newest_first tables) b.state.next_sstable_id
              (expected_entries b.state.sstables) (write_options b) fresh w'
              (All-newest_first IsSorted tables
                (AllTables-IsSorted c b.state.sstables tables i.snap.holds))
              (All-newest_first (All EntryFits) tables
                (tables_fit c b.state.sstables tables i.snap.holds))
              (omega (arith, f, total-newest_first tables)) in
          let i' : IsEngine c counted tables = record {
            snap = i.snap;
            flushed = i.flushed;
            fits = i.fits;
          } in
          let end : swap_in c manifest_code wal_code fuel io counted fresh ≡ b' = cc in
          subst (Keeps c b) end (swapped counted tables fresh t i' holds same)
