-- ===== src/Mem/Steps.antt =====
-- crates/bkndb-storage-mem/src/lib.rs: transactions of several threads over one backend, as the
-- sequence of their steps. The mutex lets one write transaction be open at a time.
use Prim.Native.Nat.{Ordering}
use bkndb.Prelude.{inl, inr, Bool-cases, ◌≡◌, refl, [], ◌∷◌, true, false, Option, none, some}
use bkndb.Prelude.Order.{bytes_cmp, bytes_ord, pair_ord}
use bkndb.Prelude.BTreeMap
use bkndb.Prelude.BTreeMap.{IsSorted, insert-IsSorted}
use bkndb.Mem.{
  Bytes, Table, Tables, Pending, MemoryStorageBackend, MemWriteTx, new, begin_write, put, delete,
  commit, snapshot_get, write_get, table_of, merge_entry, apply_entry, apply_pending, commit_tables,
}
use bkndb.Mem.Commit.{get-commit}
use bkndb.Mem.Range.{AllSorted, get-All, merge_entry-IsSorted}

-- The backend and the write transaction that some thread has open.
pub record System : Type 0 where
  pub backend : MemoryStorageBackend
  pub open_tx : Option MemWriteTx

pub data Step (s u : System) : Type 0 where
  begin :
      (b : MemoryStorageBackend) (tx : MemWriteTx)
      → begin_write s.backend ≡ some (b, tx)
      → u ≡ record { backend = b; open_tx = some tx }
      → Step s u
  write :
      (tx : MemWriteTx) (t k v : Bytes)
      → s.open_tx ≡ some tx
      → u ≡ record s { open_tx = some (put tx t k v) }
      → Step s u
  erase :
      (tx : MemWriteTx) (t k : Bytes)
      → s.open_tx ≡ some tx
      → u ≡ record s { open_tx = some (delete tx t k) }
      → Step s u
  finish :
      (tx : MemWriteTx)
      → s.open_tx ≡ some tx
      → u ≡ record { backend = commit s.backend tx; open_tx = none }
      → Step s u
  -- A transaction that is dropped: its guard is, too.
  abandon :
      (tx : MemWriteTx)
      → s.open_tx ≡ some tx
      → u ≡ record { backend = record s.backend { writer = false }; open_tx = none }
      → Step s u

abbrev pub start : System
start = record { backend = new; open_tx = none }

pub data Reach : System → Type 0 where
  here : Reach start
  next : {s u : System} → Reach s → Step s u → Reach u

-- What holds between steps: the mutex is held exactly while a transaction is open, and that
-- transaction still reads what is committed.
abbrev TxIsValid : MemoryStorageBackend → Option MemWriteTx → Type 0
TxIsValid b none = b.writer ≡ false
TxIsValid b (some tx) = (b.writer ≡ true) × (tx.snapshot ≡ b.tables) × IsSorted tx.pending

pub record IsValid (s : System) : Type 0 where
  pub tx : TxIsValid s.backend s.open_tx
  pub sorted : AllSorted s.backend.tables

insert-AllSorted :
    (tables : Tables) (t : Bytes) (m : Table)
    → AllSorted tables
    → IsSorted m
    → AllSorted (BTreeMap.insert tables t m)
unfolding BTreeMap.insert
insert-AllSorted [] t m a s = (s, tt)
insert-AllSorted ((u, n) ∷ tables) t m a s = go (bytes_cmp t u) (insert-AllSorted tables t m a.1 s)
  where
    go :
        (c : Ordering)
        → AllSorted (BTreeMap.insert tables t m)
        → AllSorted (elim c [
          | Ordering.lt ↦ (t, m) ∷ (u, n) ∷ tables
          | Ordering.eq ↦ (t, m) ∷ tables
          | Ordering.gt ↦ (u, n) ∷ BTreeMap.insert tables t m
        ])
    go Ordering.lt r = (s, a)
    go Ordering.eq r = (s, a.1)
    go Ordering.gt r = (a.0, r)

apply_entry-AllSorted :
    (tables : Tables) (t k : Bytes) (v : Option Bytes)
    → AllSorted tables
    → AllSorted (apply_entry tables t k v)
unfolding apply_entry
apply_entry-AllSorted tables t k v a =
    insert-AllSorted tables t (merge_entry (table_of (BTreeMap.get tables t)) k v) a
      (merge_entry-IsSorted _ k v (table_of-IsSorted (BTreeMap.get tables t) (get-All tables t a)))
  where
    table_of-IsSorted :
        (o : Option Table) → ((m : Table) → o ≡ some m → IsSorted m) → IsSorted (table_of o)
    table_of-IsSorted none h = unfold table_of in tt
    table_of-IsSorted (some m) h = unfold table_of in h m refl

apply_pending-AllSorted :
    (tables : Tables) (pending : Pending)
    → AllSorted tables
    → AllSorted (apply_pending tables pending)
unfolding apply_pending
apply_pending-AllSorted tables [] a = a
apply_pending-AllSorted tables (((t, k), v) ∷ pending) a =
    apply_pending-AllSorted (apply_entry tables t k v) pending
      (apply_entry-AllSorted tables t k v a)

commit_tables-AllSorted :
    (tables : Tables) (pending : Pending)
    → AllSorted tables
    → AllSorted (commit_tables tables pending)
unfolding commit_tables
commit_tables-AllSorted tables [] a = a
commit_tables-AllSorted tables (e ∷ rest) a = apply_pending-AllSorted tables (e ∷ rest) a

begin_write-eq :
    (b b' : MemoryStorageBackend) (tx : MemWriteTx)
    → begin_write b ≡ some (b', tx)
    → (b' ≡ record b { writer = true }) × (tx ≡ record { snapshot = b.tables; pending = [] })
unfolding begin_write
begin_write-eq b b' tx h = elim (Bool-cases b.writer) [
  | inl busy ↦ cc (rw busy at h)
  | inr free ↦ (cc (rw free at h), cc (rw free at h))
]

Step-IsValid : {s u : System} → IsValid s → Step s u → IsValid u
Step-IsValid {s} {u} v (begin b tx h e) =
    let (eb, et) = begin_write-eq s.backend b tx h in
    rw (e, eb, et) (record { tx = (refl, refl, tt); sorted = v.sorted })
Step-IsValid {s} {u} v (write tx t k w h e) =
    let held : TxIsValid s.backend (some tx) = rw h at v.tx in
    rw e (record {
      tx = unfold put in (held.0, held.1, insert-IsSorted tx.pending (t, k) (some w) held.2);
      sorted = v.sorted;
    })
Step-IsValid {s} {u} v (erase tx t k h e) =
    let held : TxIsValid s.backend (some tx) = rw h at v.tx in
    rw e (record {
      tx = unfold delete in (held.0, held.1, insert-IsSorted tx.pending (t, k) none held.2);
      sorted = v.sorted;
    })
Step-IsValid {s} {u} v (finish tx h e) = rw e (record {
  tx = unfold commit in refl;
  sorted = unfold commit in commit_tables-AllSorted s.backend.tables tx.pending v.sorted;
})
Step-IsValid {s} {u} v (abandon tx h e) = rw e (record { tx = refl; sorted = v.sorted })

Reach-IsValid : {s : System} → Reach s → IsValid s
Reach-IsValid here = record { tx = refl; sorted = tt }
Reach-IsValid (next r st) = Step-IsValid (Reach-IsValid r) st

-- Whatever transactions ran before, a commit publishes exactly what its transaction reads: no other
-- commit came between its snapshot and its own commit, so no update is lost. A second transaction
-- cannot begin while it is open.
pub commit_serializable :
    (s : System) (tx : MemWriteTx) (t k : Bytes)
    → Reach s
    → s.open_tx ≡ some tx
    → (snapshot_get (commit s.backend tx).tables t k ≡ write_get tx t k)
      × (begin_write s.backend ≡ none)
commit_serializable s tx t k r h =
    let v = Reach-IsValid r in
    let held : TxIsValid s.backend (some tx) = rw h at v.tx in
    ((get-commit s.backend tx t k held.1 held.2).0, unfold begin_write in rw held.0)
