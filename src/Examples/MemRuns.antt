-- ===== src/Examples/MemRuns.antt =====
-- crates/bkndb-storage-mem/src/lib.rs at a small run.
use bkndb.Prelude.{◌≡◌, refl, [], ◌∷◌, true, false, none, some, if◌then◌else◌}
use bkndb.Prelude.Order.{bytes_ord, pair_ord}
use bkndb.Prelude.BTreeMap
use bkndb.Prelude.BTreeMap.{included, unbounded, IsSorted, in_bounds}
use bkndb.Mem.{
  MemoryStorageBackend, MemWriteTx, begin_write, put, commit, snapshot_get, write_get, write_range,
  Bytes,
}
use bkndb.Mem.Commit.{get-commit}
use bkndb.Mem.Range.{write_range_lem}
use bkndb.Mem.Steps.{System, Reach, begin, write, here, next, commit_serializable}

abbrev t : Bytes
t = b't' ∷ []

abbrev key_a : Bytes
key_a = b'a' ∷ []

abbrev fresh : MemWriteTx
fresh = record { snapshot = []; pending = [] }

abbrev held : MemoryStorageBackend
held = record { tables = []; writer = true }

abbrev one_put : System
one_put = record { backend = held; open_tx = some (put fresh t key_a (1 ∷ [])) }

one_put_reached : Reach one_put
one_put_reached =
    next (next here (begin held fresh (unfold begin_write in refl) refl))
      (write fresh t key_a (1 ∷ []) refl refl)

get-commit_example :
    (snapshot_get (commit held (put fresh t key_a (1 ∷ []))).tables t key_a
      ≡ write_get (put fresh t key_a (1 ∷ [])) t key_a)
    × ((commit held (put fresh t key_a (1 ∷ []))).writer ≡ false)
get-commit_example =
    get-commit held (put fresh t key_a (1 ∷ [])) t key_a (unfold put in refl)
      (unfold put BTreeMap.insert in (tt, tt))

write_range_lem_example :
    IsSorted (write_range (put fresh t key_a (1 ∷ [])) t unbounded unbounded)
    × (BTreeMap.get (write_range (put fresh t key_a (1 ∷ [])) t unbounded unbounded) key_a ≡ (
        if in_bounds unbounded unbounded key_a
        then write_get (put fresh t key_a (1 ∷ [])) t key_a
        else none))
write_range_lem_example =
    write_range_lem (put fresh t key_a (1 ∷ [])) t unbounded unbounded key_a
      (unfold put BTreeMap.insert in (tt, tt)) (unfold put in tt)

commit_serializable_example :
    (snapshot_get (commit held (put fresh t key_a (1 ∷ []))).tables t key_a
      ≡ write_get (put fresh t key_a (1 ∷ [])) t key_a)
    × (begin_write held ≡ none)
commit_serializable_example =
    commit_serializable one_put (put fresh t key_a (1 ∷ [])) t key_a one_put_reached refl
