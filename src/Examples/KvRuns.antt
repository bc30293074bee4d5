-- ===== src/Examples/KvRuns.antt =====
-- crates/bkndb-core/src/kv: a value put into an empty database.
use bkndb.Prelude.{◌≡◌, refl, [], ◌∷◌, false, some, if◌then◌else◌}
use bkndb.Prelude.Order.{bytes_ord, bytes_cmp, pair_cmp, is_eq}
use bkndb.Prelude.BTreeMap
use bkndb.Error.{ok}
use bkndb.Mem
use bkndb.Mem.{MemoryStorageBackend, begin_write, commit, snapshot_get}
use bkndb.Kv.{contains, is_reserved, check_table_name, write_one, kv_put}
use bkndb.Kv.Reserved.{KvOp, put_op, run, table_of, key_of, value_of, run_lem}

abbrev empty : MemoryStorageBackend
empty = record { tables = []; writer = false }

abbrev filled : MemoryStorageBackend
filled = record { tables = ((b't' ∷ [], (b'k' ∷ [], b'v' ∷ []) ∷ []) ∷ []); writer = false }

abbrev put_one : KvOp
put_one = put_op (b't' ∷ []) (b'k' ∷ []) (b'v' ∷ [])

put_one-filled : run empty put_one ≡ ok (some filled)
unfolding Mem.put kv_put check_table_name is_reserved contains bytes_cmp write_one begin_write
    commit BTreeMap.insert BTreeMap.get
put_one-filled = refl

run_lem_example :
    (is_reserved (table_of put_one) ≡ false)
    × (snapshot_get filled.tables (b't' ∷ []) (b'k' ∷ []) ≡ (
        if is_eq (pair_cmp (b't' ∷ [], b'k' ∷ []) (table_of put_one, key_of put_one))
        then value_of put_one
        else snapshot_get empty.tables (b't' ∷ []) (b'k' ∷ [])))
run_lem_example = run_lem empty filled put_one (b't' ∷ []) (b'k' ∷ []) put_one-filled
