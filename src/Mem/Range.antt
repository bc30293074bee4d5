-- ===== src/Mem/Range.antt =====
-- crates/bkndb-storage-mem/src/lib.rs: `range` of a write transaction, with its own writes.
use mathlib.Core.Path.{subst}
use bkndb.Prelude.{All, ◌≡◌, refl, ap, ◌∙◌, [], ◌∷◌, true, false, ◌&&◌, Option, none, some}
use bkndb.Prelude.{◌⊎◌, if_rule, and_right, inl, inr, Bool-cases, if◌then◌else◌}
use bkndb.Prelude.Intervals.{empty_closed, empty_half_open, empty_open_half, empty_open}
use bkndb.Prelude.Order.{bytes_cmp, bytes_ord, pair_ord, pair_cmp, bytes_cmp-IsTotal, is_eq}
use bkndb.Prelude.BTreeMap
use bkndb.Prelude.BTreeMap.{
  BTreeMap, Bound, included, excluded, unbounded, in_bounds, IsSorted, over, over-get-cons,
  get-insert, get-remove, get-range, range-IsSorted, insert-IsSorted, remove-IsSorted,
}
use bkndb.Mem.{Bytes, Table, Tables, Pending, MemWriteTx, bounds_empty, snapshot_get, snapshot_scan}
use bkndb.Mem.{write_get, write_range, merge_entry, merge_pending}
use bkndb.Mem.Commit.{is_eq_comm, write_get-over, get-merge_entry, is_eq→eq, is_eq-then}

-- A scan that `bounds_empty` skips would have found nothing.
bounds_empty-in_bounds :
    (lo hi : Bound Bytes) (k : Bytes) → bounds_empty lo hi ≡ true → in_bounds lo hi k ≡ false
unfolding bounds_empty in_bounds
bounds_empty-in_bounds (included a) (included b) k h = empty_closed a b k h
bounds_empty-in_bounds (included a) (excluded b) k h = empty_half_open a b k h
bounds_empty-in_bounds (included a) unbounded k h = cc
bounds_empty-in_bounds (excluded a) (included b) k h = empty_open_half a b k h
bounds_empty-in_bounds (excluded a) (excluded b) k h = empty_open a b k h
bounds_empty-in_bounds (excluded a) unbounded k h = cc
bounds_empty-in_bounds unbounded hi k h = cc

-- Every table of a snapshot is a map with ascending keys.
abbrev pub AllSorted : Tables → Type 0
AllSorted = All (λ e. IsSorted e.1)

pub get-All :
    (tables : Tables) (t : Bytes)
    → AllSorted tables
    → (m : Table) → BTreeMap.get tables t ≡ some m
    → IsSorted m
unfolding BTreeMap.get
get-All [] t a m h = cc
get-All ((u, n) ∷ tables) t a m h = elim (Bool-cases (is_eq (bytes_cmp t u))) [
  | inl e ↦ (let p : n ≡ m = cc (rw e at h) in subst IsSorted p a.0)
  | inr e ↦ get-All tables t a.1 m (rw e at h)
]

pub merge_entry-IsSorted :
    (m : Table) (k : Bytes) (v : Option Bytes) → IsSorted m → IsSorted (merge_entry m k v)
unfolding merge_entry
merge_entry-IsSorted m k (some v) s = insert-IsSorted m k v s
merge_entry-IsSorted m k none s = remove-IsSorted m k s

module _ (table : Bytes) (lo hi : Bound Bytes) where
  abbrev within : Bytes → Option Bytes → Option Bytes
  within k o = if in_bounds lo hi k then o else none

  get-snapshot_scan :
      (tables : Tables) (k : Bytes)
      → BTreeMap.get (snapshot_scan tables table lo hi) k ≡ within k (snapshot_get tables table k)
  unfolding snapshot_scan
  get-snapshot_scan tables k = elim (Bool-cases (bounds_empty lo hi)) [
    | inl e ↦ rw (e, bounds_empty-in_bounds lo hi k e) (unfold BTreeMap.get in refl)
    | inr e ↦ rw e (unfold snapshot_get in go (BTreeMap.get tables table))
  ]
    where
      go :
          (o : Option Table)
          → BTreeMap.get (elim o [ none ↦ [] | some t ↦ BTreeMap.range t lo hi ]) k
            ≡ within k (elim o [ none ↦ none | some t ↦ BTreeMap.get t k ])
      go (some t) = get-range t lo hi k
      go none =
          unfold BTreeMap.get in
          elim (Bool-cases (in_bounds lo hi k)) [ inl e ↦ rw e | inr e ↦ rw e ]

  merge_round :
      (t j : Bytes) (v : Option Bytes) (merged : Table) (k : Bytes)
      → in_bounds lo hi k ≡ true
      → BTreeMap.get
          (if is_eq (bytes_cmp t table) && in_bounds lo hi j
            then merge_entry merged j v
            else merged)
          k
        ≡ (if is_eq (pair_cmp (table, k) (t, j)) then v else BTreeMap.get merged k)
  merge_round t j v merged k h = elim (Bool-cases (is_eq (bytes_cmp t table))) [
    | inr e ↦ rw (e, is_eq-then (bytes_cmp table t) (bytes_cmp k j) (is_eq_comm table t ∙ e))
    | inl e ↦
        rw (e, is_eq→eq (bytes_cmp table t) (is_eq_comm table t ∙ e))
          (same_table (Bool-cases (is_eq (bytes_cmp k j))) (Bool-cases (in_bounds lo hi j)))
  ]
    where
      same_table :
          (is_eq (bytes_cmp k j) ≡ true) ⊎ (is_eq (bytes_cmp k j) ≡ false)
          → (in_bounds lo hi j ≡ true) ⊎ (in_bounds lo hi j ≡ false)
          → BTreeMap.get (if in_bounds lo hi j then merge_entry merged j v else merged) k
            ≡ (if is_eq (bytes_cmp k j) then v else BTreeMap.get merged k)
      same_table c (inl inside) = rw inside (get-merge_entry merged j v k)
      same_table (inr other) (inr outside) = rw (outside, other)
      same_table (inl same) (inr outside) =
          let e = bytes_cmp-IsTotal.same_of_equal k j (is_eq→eq (bytes_cmp k j) same) in
          cc (ap (in_bounds lo hi) e, h, outside)

  get-merge_pending :
      (pending : Pending) (merged : Table) (k : Bytes)
      → IsSorted pending
      → in_bounds lo hi k ≡ true
      → BTreeMap.get (merge_pending table lo hi pending merged) k
        ≡ over (BTreeMap.get pending (table, k)) (BTreeMap.get merged k)
  unfolding merge_pending
  get-merge_pending [] merged k s h = unfold BTreeMap.get in refl
  get-merge_pending (((t, j), v) ∷ pending) merged k s h =
      get-merge_pending pending _ k s.1 h
      ∙ ap (over (BTreeMap.get pending (table, k))) (merge_round t j v merged k h)
      ∙ over-get-cons (t, j) v pending (table, k) (BTreeMap.get merged k) s

  get-merge_pending_out :
      (pending : Pending) (merged : Table) (k : Bytes)
      → in_bounds lo hi k ≡ false
      → BTreeMap.get (merge_pending table lo hi pending merged) k ≡ BTreeMap.get merged k
  unfolding merge_pending
  get-merge_pending_out [] merged k h = refl
  get-merge_pending_out (((t, j), v) ∷ pending) merged k h =
      get-merge_pending_out pending _ k h
      ∙ if_rule (λ m. BTreeMap.get m k ≡ BTreeMap.get merged k)
          (is_eq (bytes_cmp t table) && in_bounds lo hi j)
          (λ inside.
            get-merge_entry merged j v k
            ∙ rw (other (and_right (is_eq (bytes_cmp t table)) _ inside)))
          (λ _. refl)
    where
      other : in_bounds lo hi j ≡ true → is_eq (bytes_cmp k j) ≡ false
      other inside = elim (Bool-cases (is_eq (bytes_cmp k j))) [
        | inr e ↦ e
        | inl e ↦ cc (
          ap (in_bounds lo hi) (bytes_cmp-IsTotal.same_of_equal k j (is_eq→eq (bytes_cmp k j) e)),
          h,
          inside,
        )
      ]

  merge_pending-IsSorted :
      (pending : Pending) (merged : Table)
      → IsSorted merged
      → IsSorted (merge_pending table lo hi pending merged)
  unfolding merge_pending
  merge_pending-IsSorted [] merged s = s
  merge_pending-IsSorted (((t, j), v) ∷ pending) merged s = merge_pending-IsSorted pending _ (
      if_rule IsSorted (is_eq (bytes_cmp t table) && in_bounds lo hi j)
        (λ _. merge_entry-IsSorted merged j v s) (λ _. s))

  snapshot_scan-IsSorted :
      (tables : Tables) → AllSorted tables → IsSorted (snapshot_scan tables table lo hi)
  unfolding snapshot_scan
  snapshot_scan-IsSorted tables s =
      if_rule IsSorted (bounds_empty lo hi) (λ _. tt)
        (λ _. go (BTreeMap.get tables table) (get-All tables table s))
    where
      go :
          (o : Option Table)
          → ((t : Table) → o ≡ some t → IsSorted t)
          → IsSorted (elim o [ none ↦ [] | some t ↦ BTreeMap.range t lo hi ])
      go none h = tt
      go (some t) h = range-IsSorted t lo hi (h t refl)

-- A range read in a write transaction, whose snapshot and own writes are sorted, returns ascending
-- keys, and finds a key of the range exactly with the value that `get` returns: the committed rows
-- under the transaction's own writes.
pub write_range_lem :
    (tx : MemWriteTx) (table : Bytes) (lo hi : Bound Bytes) (k : Bytes)
    → IsSorted tx.pending
    → AllSorted tx.snapshot
    → IsSorted (write_range tx table lo hi)
      × (BTreeMap.get (write_range tx table lo hi) k
          ≡ (if in_bounds lo hi k then write_get tx table k else none))
unfolding write_range
write_range_lem tx table lo hi k s a = (
  merge_pending-IsSorted table lo hi tx.pending _
      (snapshot_scan-IsSorted table lo hi tx.snapshot a),
  elim (Bool-cases (in_bounds lo hi k)) [
    | inl e ↦
        rw (e, write_get-over tx table k)
          (get-merge_pending table lo hi tx.pending _ k s e
            ∙ ap (over (BTreeMap.get tx.pending (table, k)))
                (get-snapshot_scan table lo hi tx.snapshot k ∙ rw e))
    | inr e ↦ rw e (
        get-merge_pending_out table lo hi tx.pending _ k e
        ∙ get-snapshot_scan table lo hi tx.snapshot k
        ∙ rw e)
  ],
)
