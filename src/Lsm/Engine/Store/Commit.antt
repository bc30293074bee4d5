-- ===== src/Lsm/Engine/Store/Commit.antt =====
-- crates/bkndb-storage-lsm/src/engine/write.rs: a commit publishes what its transaction reads.
use mathlib.Core.Path.{subst}
use Prim.Native.Nat.Ordering.{lt, eq, gt}
use bkndb.Prelude.{
  ℕ, ◌+◌, ◌<◌, ◌≤◌, ◌≡◌, refl, sym, ap, ◌∙◌, arith, List, [], ◌∷◌, ◌++◌, Option, none, some, All,
  length, leb, or_else, Bool-cases, inl, inr,
}
use bkndb.Prelude.Order.{bytes_cmp, bytes_ord, is_eq, same_of_is_eq}
use bkndb.Prelude.BTreeMap
use bkndb.Prelude.BTreeMap.{IsSorted, Above, insert, get-insert, insert-IsSorted}
use bkndb.Error.{ok}
use bkndb.Lsm.Codec.{Bincode}
use bkndb.Lsm.Memtable.{Entry, Memtable, LsmValue, live, memtable_byte_size}
use bkndb.Lsm.Manifest.{Manifest}
use bkndb.Lsm.Wal.{WalRecord}
use bkndb.Lsm.Merge.Drop.{get_past}
use bkndb.Lsm.Merge.Lists.{first_of, total}
use bkndb.Lsm.Sstable.Block.{EntryFits}
use bkndb.Lsm.Sstable.Write.{Crates}
use bkndb.Lsm.Engine.Faults.{Io, Attempt, made, broken}
use bkndb.Lsm.Engine.{
  LsmStorageBackend, Pending, snapshot, newest_first, lookup, pending_entry, lsm_value,
  pending_entries,
}
use bkndb.Lsm.Engine.Reads.{lookup_lem}
use bkndb.Lsm.Engine.Store.{log_of, done, apply_writes, with_writes, finish_commit, commit_pending}
use bkndb.Lsm.Engine.Store.Compact.{IsEngine}
use bkndb.Lsm.Engine.Store.Flush.{flush_lem}

own_or_inserted :
    (p : Pending) (m : Memtable) (k : List ℕ) (v : LsmValue) (key : List ℕ)
    → Above k p
    → or_else (BTreeMap.get (pending_entries p) key) (BTreeMap.get (insert m k v) key)
      ≡ or_else (BTreeMap.get ((k, v) ∷ pending_entries p) key) (BTreeMap.get m key)
own_or_inserted p m k v key a = elim (Bool-cases (is_eq (bytes_cmp key k))) [
  | inl e ↦
      let q : key ≡ k = same_of_is_eq key k e in
      let gone : BTreeMap.get (pending_entries p) key ≡ none =
        get_past key (pending_entries p)
          (subst (λ x. Above x (pending_entries p)) (sym q) (Above-entries p a)) in
      rw (gone, get-insert m k v key, e) (unfold BTreeMap.get in rw e (unfold or_else in refl))
  | inr e ↦ rw (get-insert m k v key, e) (unfold BTreeMap.get in rw e refl)
]
  where
    Above-entries : (p : Pending) → Above k p → Above k (pending_entries p)
    Above-entries [] a = tt
    Above-entries ((j, w) ∷ p) a = (a.0, Above-entries p a.1)

pub get-apply_writes :
    (p : Pending) (m : Memtable) (key : List ℕ)
    → IsSorted p
    → BTreeMap.get (apply_writes p m) key
      ≡ or_else (BTreeMap.get (pending_entries p) key) (BTreeMap.get m key)
unfolding apply_writes
get-apply_writes [] m key s = unfold BTreeMap.get or_else in refl
get-apply_writes ((k, v) ∷ p) m key s =
    get-apply_writes p (insert m k (lsm_value v)) key s.1
    ∙ own_or_inserted p m k (lsm_value v) key s.0

apply_writes-IsSorted : (p : Pending) (m : Memtable) → IsSorted m → IsSorted (apply_writes p m)
unfolding apply_writes
apply_writes-IsSorted [] m s = s
apply_writes-IsSorted ((k, v) ∷ p) m s =
    apply_writes-IsSorted p (insert m k (lsm_value v)) (insert-IsSorted m k (lsm_value v) s)

insert-All :
    (P : Entry → Type 0) (m : Memtable) (k : List ℕ) (v : LsmValue)
    → All P m
    → P (k, v)
    → All P (insert m k v)
unfolding insert
insert-All P [] k v a p = (p, tt)
insert-All P ((j, w) ∷ m) k v a p = go (bytes_cmp k j) (insert-All P m k v a.1 p)
  where
    go :
        (o : Prim.Native.Nat.Ordering)
        → All P (insert m k v)
        → All P (elim o [ lt ↦ (k, v) ∷ (j, w) ∷ m | eq ↦ (k, v) ∷ m | gt ↦ (j, w) ∷ insert m k v ])
    go lt later = (p, a)
    go eq later = (p, a.1)
    go gt later = (a.0, later)

apply_writes-fits :
    (p : Pending) (m : Memtable)
    → All EntryFits (pending_entries p)
    → All EntryFits m
    → All EntryFits (apply_writes p m)
unfolding apply_writes
apply_writes-fits [] m f a = a
apply_writes-fits ((k, v) ∷ p) m f a =
    apply_writes-fits p (insert m k (lsm_value v)) f.1
      (insert-All EntryFits m k (lsm_value v) a f.0)

length-insert : (m : Memtable) (k : List ℕ) (v : LsmValue) → length (insert m k v) ≤ length m + 1
unfolding insert
length-insert [] k v = omega arith
length-insert ((j, w) ∷ m) k v = go (bytes_cmp k j) (length-insert m k v)
  where
    go :
        (o : Prim.Native.Nat.Ordering)
        → length (insert m k v) ≤ length m + 1
        → length
            (elim o [ lt ↦ (k, v) ∷ (j, w) ∷ m | eq ↦ (k, v) ∷ m | gt ↦ (j, w) ∷ insert m k v ])
          ≤ length ((j, w) ∷ m) + 1
    go lt h = omega arith
    go eq h = omega arith
    go gt h = omega (arith, h)

length-apply_writes : (p : Pending) (m : Memtable) → length (apply_writes p m) ≤ length p + length m
unfolding apply_writes
length-apply_writes [] m = omega arith
length-apply_writes ((k, v) ∷ p) m =
    omega (arith, length-apply_writes p (insert m k (lsm_value v)), length-insert m k (lsm_value v))

module _ (c : Crates) (manifest_code : Bincode Manifest) (wal_code : Bincode WalRecord) (fuel : ℕ)
    (io : Io) where
  abbrev pub written : LsmStorageBackend → Pending → List ℕ → LsmStorageBackend
  written b pending file = with_writes c manifest_code wal_code fuel io b pending file

  abbrev pub Publishes : LsmStorageBackend → Pending → LsmStorageBackend → Type 0
  Publishes b pending b' =
      (tables : List (List Entry)) × IsEngine c b' tables
      × ((key : List ℕ)
          → lookup c (snapshot b') none key ≡ lookup c (snapshot b) (some pending) key)

  pub written-Publishes :
      (b : LsmStorageBackend) (tables : List (List Entry)) (pending : Pending) (file : List ℕ)
      → IsEngine c b tables
      → IsSorted pending
      → All EntryFits (pending_entries pending)
      → IsEngine c (written b pending file) tables
        × ((key : List ℕ)
            → lookup c (snapshot (written b pending file)) none key
              ≡ lookup c (snapshot b) (some pending) key)
  written-Publishes b tables pending file i s f = (
    record {
      snap = record {
        holds = i.snap.holds;
        active = apply_writes-IsSorted pending b.state.active_memtable i.snap.active;
        immutable = i.snap.immutable;
      };
      flushed = i.flushed;
      fits = apply_writes-fits pending b.state.active_memtable f i.fits;
    },
    λ key.
        lookup_lem c (snapshot (written b pending file)) none tables key i.snap.holds
        ∙ ap (λ o. ok (live o)) (layer key)
        ∙ sym (lookup_lem c (snapshot b) (some pending) tables key i.snap.holds),
  )
    where
      older : List (List Entry)
      older = newest_first b.state.immutable_memtables ++ newest_first tables

      layer :
          (key : List ℕ)
          → first_of (apply_writes pending b.state.active_memtable ∷ older) key
            ≡ first_of (pending_entries pending ∷ b.state.active_memtable ∷ older) key
      layer key =
          unfold first_of in
          rw (get-apply_writes pending b.state.active_memtable key s) (assoc _ _ _)
        where
          assoc : (x y z : Option LsmValue) → or_else (or_else x y) z ≡ or_else x (or_else y z)
          assoc none y z = unfold or_else in refl
          assoc (some v) y z = unfold or_else in refl

  -- A commit on an engine at rest, where it succeeds, flush and compaction included, leaves an engine
  -- at rest whose readers find what the transaction found, if its writes ascend and have lengths
  -- below 2^32, and if the fuel exceeds all entries together.
  pub commit_pending_lem :
      (b b' : LsmStorageBackend) (tables : List (List Entry)) (pending : Pending)
      → IsEngine c b tables
      → IsSorted pending
      → All EntryFits (pending_entries pending)
      → length pending + length b.state.active_memtable + total tables < fuel
      → commit_pending c manifest_code wal_code fuel io b pending ≡ done b'
      → Publishes b pending b'
  unfolding commit_pending
  commit_pending_lem b b' tables [] i s f n h =
      let same : b ≡ b' = cc in
      subst (Publishes b []) same
        (tables, i, λ key. unfold lookup pending_entry BTreeMap.get in refl)
  commit_pending_lem b b' tables (w ∷ pending) i s f n h =
      finished (log_of c manifest_code wal_code fuel io b (w ∷ pending)) h
    where
      finished :
          (r : Attempt (List ℕ))
          → finish_commit c manifest_code wal_code fuel io b (w ∷ pending) r ≡ done b'
          → Publishes b (w ∷ pending) b'
      finished (broken e file) h = absurd (cc)
      finished (made file) h =
          let now : LsmStorageBackend = written b (w ∷ pending) file in
          let (engine, reads) = written-Publishes b tables (w ∷ pending) file i s f in
          elim (Bool-cases
            (leb b.options.memtable_flush_bytes (memtable_byte_size now.state.active_memtable))) [
              | inr small ↦
                  (let same : now ≡ b' = cc (rw small at h) in
                    subst (Publishes b (w ∷ pending)) same (tables, engine, reads))
              | inl large ↦
                  let (tables', engine', same) =
                    flush_lem c manifest_code wal_code fuel io now b' tables engine
                      (omega (arith, n, length-apply_writes (w ∷ pending) b.state.active_memtable))
                      (rw large at h) in
                  (tables', engine', λ key. same key ∙ reads key)
            ]
