-- ===== src/Kv.antt =====
-- crates/bkndb-core/src/reserved.rs and kv/mod.rs: direct access to tables, over the memory backend.
pub mod Reserved
use bkndb.Prelude.{ℕ, List, [], ◌∷◌, Bool, true, false, ◌||◌, Option, none, some, if◌then◌else◌}
use bkndb.Prelude.Order.{bytes_cmp, is_eq}
use bkndb.Prelude.BTreeMap.{Bound}
use bkndb.Error.{Result, ok, err, ◌>>=◌, reserved_table_name}
use bkndb.Mem
use bkndb.Mem.{
  Bytes, Table, MemoryStorageBackend, MemWriteTx, begin_read, begin_write, read_get, read_range,
  commit,
}

-- "nodes", "edges", "adj_out", "adj_in", "meta", "node_labels", "node_props"
abbrev pub reserved_table_names : List Bytes
reserved_table_names =
    (b'n' ∷ b'o' ∷ b'd' ∷ b'e' ∷ b's' ∷ [])
    ∷ (b'e' ∷ b'd' ∷ b'g' ∷ b'e' ∷ b's' ∷ [])
    ∷ (b'a' ∷ b'd' ∷ b'j' ∷ 0x5f ∷ b'o' ∷ b'u' ∷ b't' ∷ [])
    ∷ (b'a' ∷ b'd' ∷ b'j' ∷ 0x5f ∷ b'i' ∷ b'n' ∷ [])
    ∷ (b'm' ∷ b'e' ∷ b't' ∷ b'a' ∷ [])
    ∷ (b'n' ∷ b'o' ∷ b'd' ∷ b'e' ∷ 0x5f ∷ b'l' ∷ b'a' ∷ b'b' ∷ b'e' ∷ b'l' ∷ b's' ∷ [])
    ∷ (b'n' ∷ b'o' ∷ b'd' ∷ b'e' ∷ 0x5f ∷ b'p' ∷ b'r' ∷ b'o' ∷ b'p' ∷ b's' ∷ [])
    ∷ []

unfoldable pub contains : List Bytes → Bytes → Bool
contains [] name = false
contains (n ∷ names) name = is_eq (bytes_cmp n name) || contains names name

unfoldable pub is_reserved : Bytes → Bool
is_reserved name = contains reserved_table_names name

unfoldable pub check_table_name : Bytes → Result (Unit {0})
check_table_name name = if is_reserved name then err (reserved_table_name name) else ok tt

unfoldable pub kv_get : MemoryStorageBackend → Bytes → Bytes → Result (Option Bytes)
kv_get b table key = check_table_name table >>= λ u. ok (read_get (begin_read b) table key)

unfoldable pub kv_range : MemoryStorageBackend → Bytes → Bound Bytes → Bound Bytes → Result Table
kv_range b table start end =
    check_table_name table >>= λ u. ok (read_range (begin_read b) table start end)

-- A write transaction with one operation; `none` is the wait for the mutex.
unfoldable pub write_one :
    MemoryStorageBackend → (MemWriteTx → MemWriteTx) → Option MemoryStorageBackend
write_one b operation = elim (begin_write b) [
  | none ↦ none
  | some p ↦ some (commit p.0 (operation p.1))
]

unfoldable pub kv_put :
    MemoryStorageBackend → Bytes → Bytes → Bytes → Result (Option MemoryStorageBackend)
kv_put b table key v =
    check_table_name table >>= λ u. ok (write_one b (λ tx. Mem.put tx table key v))

unfoldable pub kv_delete :
    MemoryStorageBackend → Bytes → Bytes → Result (Option MemoryStorageBackend)
kv_delete b table key =
    check_table_name table >>= λ u. ok (write_one b (λ tx. Mem.delete tx table key))
