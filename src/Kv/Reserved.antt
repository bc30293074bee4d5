-- ===== src/Kv/Reserved.antt =====
-- crates/bkndb-core/src/kv/mod.rs: what a write through the facade changes, and what it cannot.
use bkndb.Prelude.{
  ◌≡◌, refl, sym, ap, ◌∙◌, [], ◌∷◌, Bool, true, false, Option, none, some, if◌then◌else◌,
  Bool-cases, inl, inr,
}
use bkndb.Prelude.Order.{bytes_ord, pair_cmp, pair_ord, is_eq}
use bkndb.Prelude.BTreeMap
use bkndb.Prelude.BTreeMap.{over, IsSorted}
use bkndb.Error.{Result, ok, bind-eq-ok}
use bkndb.Mem
use bkndb.Mem.{
  Bytes, MemoryStorageBackend, MemWriteTx, begin_write, snapshot_get, write_get, commit,
}
use bkndb.Mem.Commit.{get-commit, write_get-over}
use bkndb.Kv.{is_reserved, check_table_name, write_one, kv_put, kv_delete}

-- One operation of the facade that writes.
pub data KvOp : Type 0 where
  put_op : Bytes → Bytes → Bytes → KvOp
  delete_op : Bytes → Bytes → KvOp

abbrev pub run : MemoryStorageBackend → KvOp → Result (Option MemoryStorageBackend)
run b (put_op table key v) = kv_put b table key v
run b (delete_op table key) = kv_delete b table key

abbrev pub table_of : KvOp → Bytes
table_of (put_op table key v) = table
table_of (delete_op table key) = table

abbrev pub key_of : KvOp → Bytes
key_of (put_op table key v) = key
key_of (delete_op table key) = key

abbrev pub value_of : KvOp → Option Bytes
value_of (put_op table key v) = some v
value_of (delete_op table key) = none

-- The transaction of the operation.
abbrev tx_of : MemoryStorageBackend → KvOp → MemWriteTx
tx_of b op = record { snapshot = b.tables; pending = ((table_of op, key_of op), value_of op) ∷ [] }

checked : (name : Bytes) (u : Unit {0}) → check_table_name name ≡ ok u → is_reserved name ≡ false
unfolding check_table_name
checked name u h = elim (Bool-cases (is_reserved name)) [
  | inr e ↦ e
  | inl e ↦ absurd (cc (rw e at h))
]

write_one-eq :
    (b b' : MemoryStorageBackend) (op : KvOp) (operation : MemWriteTx → MemWriteTx)
    → operation (record { snapshot = b.tables; pending = [] }) ≡ tx_of b op
    → write_one b operation ≡ some b'
    → (held : MemoryStorageBackend) × (held.tables ≡ b.tables) × (commit held (tx_of b op) ≡ b')
unfolding write_one begin_write
write_one-eq b b' op operation e h = elim (Bool-cases b.writer) [
  | inl waits ↦ absurd (cc (rw waits at h))
  | inr free ↦ (
    record b { writer = true },
    refl,
    ap (commit (record b { writer = true })) (sym e) ∙ cc (rw free at h),
  )
]

run-eq :
    (b b' : MemoryStorageBackend) (op : KvOp)
    → run b op ≡ ok (some b')
    → (is_reserved (table_of op) ≡ false)
      × ((held : MemoryStorageBackend) × (held.tables ≡ b.tables) × (commit held (tx_of b op) ≡ b'))
unfolding kv_put kv_delete
run-eq b b' (put_op table key v) h =
    let (u, c, rest) = bind-eq-ok (check_table_name table) _ h in
    (
      checked table u c,
      write_one-eq b b' (put_op table key v) (λ tx. Mem.put tx table key v)
          (unfold Mem.put BTreeMap.insert in refl) (cc),
    )
run-eq b b' (delete_op table key) h =
    let (u, c, rest) = bind-eq-ok (check_table_name table) _ h in
    (
      checked table u c,
      write_one-eq b b' (delete_op table key) (λ tx. Mem.delete tx table key)
          (unfold Mem.delete BTreeMap.insert in refl) (cc),
    )

-- A put or a delete of the facade that succeeds is of a table whose name is not reserved, and it
-- changes exactly its own key of that table, to the value or to nothing.
pub run_lem :
    (b b' : MemoryStorageBackend) (op : KvOp) (table key : Bytes)
    → run b op ≡ ok (some b')
    → (is_reserved (table_of op) ≡ false)
      × (snapshot_get b'.tables table key ≡ (
          if is_eq (pair_cmp (table, key) (table_of op, key_of op))
          then value_of op
          else snapshot_get b.tables table key))
unfolding BTreeMap.get snapshot_get
run_lem b b' op table key h =
    let (free, (held, same, e)) = run-eq b b' op h in
    let published : snapshot_get b'.tables table key ≡ write_get (tx_of b op) table key =
      ap (λ (n : MemoryStorageBackend). snapshot_get n.tables table key) (sym e)
      ∙ (get-commit held (tx_of b op) table key (sym same) (tt, tt)).0 in
    (
      free,
      published
          ∙ write_get-over (tx_of b op) table key
          ∙ own (is_eq (pair_cmp (table, key) (table_of op, key_of op))),
    )
  where
    own :
        (t : Bool)
        → over (if t then some (value_of op) else none) (snapshot_get b.tables table key)
          ≡ (if t then value_of op else snapshot_get b.tables table key)
    own true = refl
    own false = refl
