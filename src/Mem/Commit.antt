-- ===== src/Mem/Commit.antt =====
-- crates/bkndb-storage-mem/src/lib.rs: what a commit makes of the committed tables.
use Prim.Native.Nat.{Ordering}
use Prim.Native.Nat.Ordering.{lt, eq, gt}
use bkndb.Prelude.{◌≡◌, refl, ◌∙◌, arith, [], ◌∷◌, true, false, Option, none, some}
use bkndb.Prelude.{inl, inr, Bool-cases, if◌then◌else◌}
use bkndb.Prelude.Order.{
  bytes_cmp, bytes_ord, pair_ord, pair_cmp, bytes_cmp-IsTotal, is_eq, then_cmp,
}
use bkndb.Prelude.BTreeMap
use bkndb.Prelude.BTreeMap.{
  BTreeMap, IsSorted, over, over-get-cons, get-insert, get-remove, get-Above,
}
use bkndb.Mem.{
  Bytes, Table, Tables, Pending, MemoryStorageBackend, MemWriteTx, table_of, snapshot_get,
}
use bkndb.Mem.{write_get, merge_entry, apply_entry, apply_pending, commit_tables, commit}

pub get-merge_entry :
    (m : Table) (k : Bytes) (v : Option Bytes) (j : Bytes)
    → BTreeMap.get (merge_entry m k v) j ≡ (if is_eq (bytes_cmp j k) then v else BTreeMap.get m j)
unfolding merge_entry
get-merge_entry m k (some v) j = get-insert m k v j
get-merge_entry m k none j = get-remove m k j

snapshot_get-table_of :
    (tables : Tables) (t k : Bytes)
    → snapshot_get tables t k ≡ BTreeMap.get (table_of (BTreeMap.get tables t)) k
unfolding snapshot_get table_of
snapshot_get-table_of tables t k = go (BTreeMap.get tables t)
  where
    go :
        (o : Option Table)
        → (elim o [ none ↦ none | some m ↦ BTreeMap.get m k ]) ≡ BTreeMap.get (table_of o) k
    go none = unfold BTreeMap.get in refl
    go (some m) = refl

pub is_eq→eq : (o : Ordering) → is_eq o ≡ true → o ≡ eq
is_eq→eq eq h = refl
is_eq→eq lt h = cc
is_eq→eq gt h = cc

pub is_eq-then : (a b : Ordering) → is_eq a ≡ false → is_eq (then_cmp a b) ≡ false
is_eq-then lt b h = refl
is_eq-then gt b h = refl
is_eq-then eq b h = cc

-- One round of the loop writes one key of one table.
snapshot_get-apply_entry :
    (tables : Tables) (t k : Bytes) (v : Option Bytes) (u j : Bytes)
    → snapshot_get (apply_entry tables t k v) u j
      ≡ (if is_eq (pair_cmp (u, j) (t, k)) then v else snapshot_get tables u j)
snapshot_get-apply_entry tables t k v u j = elim (Bool-cases (is_eq (bytes_cmp u t))) [
  | inl e ↦
      let same = is_eq→eq (bytes_cmp u t) e in
      let p = bytes_cmp-IsTotal.same_of_equal u t same in
      rw (snapshot_get-table_of (apply_entry tables t k v)) (
        unfold apply_entry in
        rw (get-insert, e, snapshot_get-table_of, same, p)
          (get-merge_entry (table_of (BTreeMap.get tables t)) k v j))
  | inr e ↦
      rw
        (
          snapshot_get-table_of (apply_entry tables t k v),
          snapshot_get-table_of tables,
          is_eq-then (bytes_cmp u t) (bytes_cmp j k) e,
        )
        (unfold apply_entry in rw (get-insert, e))
]

-- The whole loop: what the overlay names takes its value from there, and nothing else changes.
snapshot_get-apply_pending :
    (tables : Tables) (pending : Pending) (u j : Bytes)
    → IsSorted pending
    → snapshot_get (apply_pending tables pending) u j
      ≡ over (BTreeMap.get pending (u, j)) (snapshot_get tables u j)
unfolding apply_pending
snapshot_get-apply_pending tables [] u j s = unfold BTreeMap.get in refl
snapshot_get-apply_pending tables (((t, k), v) ∷ pending) u j s =
    snapshot_get-apply_pending (apply_entry tables t k v) pending u j s.1
    ∙ rw (snapshot_get-apply_entry tables t k v u j)
        (over-get-cons (t, k) v pending (u, j) (snapshot_get tables u j) s)

pub write_get-over :
    (tx : MemWriteTx) (t k : Bytes)
    → write_get tx t k ≡ over (BTreeMap.get tx.pending (t, k)) (snapshot_get tx.snapshot t k)
unfolding write_get
write_get-over tx t k = go (BTreeMap.get tx.pending (t, k))
  where
    go :
        (o : Option (Option Bytes))
        → (elim o [ some overlay ↦ overlay | none ↦ snapshot_get tx.snapshot t k ])
          ≡ over o (snapshot_get tx.snapshot t k)
    go none = refl
    go (some v) = refl

snapshot_get-commit_tables :
    (tables : Tables) (pending : Pending) (t k : Bytes)
    → IsSorted pending
    → snapshot_get (commit_tables tables pending) t k
      ≡ over (BTreeMap.get pending (t, k)) (snapshot_get tables t k)
unfolding commit_tables
snapshot_get-commit_tables tables [] t k s = unfold BTreeMap.get in refl
snapshot_get-commit_tables tables (e ∷ rest) t k s =
    snapshot_get-apply_pending tables (e ∷ rest) t k s

-- A transaction whose snapshot is what is committed, and whose writes are sorted, commits exactly
-- what it reads: after `commit`, every key of every table has the value that `get` of the
-- transaction returned, and the mutex is free.
pub get-commit :
    (b : MemoryStorageBackend) (tx : MemWriteTx) (t k : Bytes)
    → tx.snapshot ≡ b.tables
    → IsSorted tx.pending
    → (snapshot_get (commit b tx).tables t k ≡ write_get tx t k) × ((commit b tx).writer ≡ false)
get-commit b tx t k e s = (
  rw (write_get-over tx t k, e)
      (unfold commit in snapshot_get-commit_tables b.tables tx.pending t k s),
  unfold commit in refl,
)

pub is_eq_comm : (a b : Bytes) → is_eq (bytes_cmp a b) ≡ is_eq (bytes_cmp b a)
is_eq_comm a b = ground (
  arith,
  bytes_cmp-IsTotal.less_of_greater a b,
  bytes_cmp-IsTotal.greater_of_less a b,
  bytes_cmp-IsTotal.same_of_equal a b,
  bytes_cmp-IsTotal.self_equal a,
)
