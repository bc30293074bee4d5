-- ===== src/Examples/CounterRuns.antt =====
-- crates/bkndb-core/src/relational/codec.rs: the key counter over the memory backend.
use bkndb.Prelude.{ℕ, ◌+◌, ◌≡◌, refl, arith, List, [], ◌∷◌, ltb, if◌then◌else◌}
use bkndb.Prelude.BTreeMap
use bkndb.Prelude.BigEndian.{to_be}
use bkndb.Prelude.Int.{pos, to_i64}
use bkndb.Error.{ok}
use bkndb.Mem.{MemWriteTx, put, write_get, snapshot_get}
use bkndb.Mem.Transaction.{mem_write_tx}
use bkndb.Relational.Codec.Counter.{
  meta, row_counter_key, current, decode_counter, reserve_pks, reserve_pks_lem,
  bump_pk_counter_past, bump_pk_counter_past_lem,
}

abbrev users : List ℕ
users = b'u' ∷ []

abbrev empty : MemWriteTx
empty = record { snapshot = []; pending = [] }

abbrev with_counter : ℕ → MemWriteTx
with_counter n = put empty meta (row_counter_key users) (to_be 8 n)

fresh : current mem_write_tx empty users ≡ ok 1
unfolding current decode_counter write_get snapshot_get BTreeMap.get
fresh = refl

reserved : reserve_pks mem_write_tx empty users 5 ≡ ok (pos 1, with_counter 6)
unfolding reserve_pks current decode_counter write_get snapshot_get BTreeMap.get to_i64
reserved = refl

reserve_pks_lem_example :
    (pos 1 ≡ to_i64 1) × (current mem_write_tx (with_counter 6) users ≡ ok (1 + 5))
reserve_pks_lem_example =
    reserve_pks_lem mem_write_tx empty (with_counter 6) users 5 1 (pos 1) (omega arith) fresh
      (omega arith) reserved

bumped : bump_pk_counter_past mem_write_tx empty users (pos 9) ≡ ok (with_counter 10)
unfolding bump_pk_counter_past current decode_counter write_get snapshot_get BTreeMap.get
bumped = refl

bump_pk_counter_past_lem_example :
    current mem_write_tx (with_counter 10) users ≡ ok (if ltb 1 (9 + 1) then 9 + 1 else 1)
bump_pk_counter_past_lem_example =
    bump_pk_counter_past_lem mem_write_tx empty (with_counter 10) users 9 1 (omega arith)
      (omega arith) fresh bumped
