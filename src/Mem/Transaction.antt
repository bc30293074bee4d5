-- ===== src/Mem/Transaction.antt =====
-- crates/bkndb-storage-mem/src/lib.rs: the write transaction as the storage trait's.
use bkndb.Prelude.{Bool, sym, ◌≡◌, refl, ap, ◌∙◌, Option, some, true, false, if◌then◌else◌}
use bkndb.Prelude.Order.{bytes_ord, pair_ord, pair_cmp, pair_cmp-IsTotal, is_eq}
use bkndb.Prelude.BTreeMap
use bkndb.Prelude.BTreeMap.{over}
use bkndb.Error.{Result, ok}
use bkndb.Storage.{StorageWriteTx}
use bkndb.Mem.{Bytes, MemWriteTx, write_get, put, snapshot_get}
use bkndb.Mem.Commit.{write_get-over}

write_get-put :
    (tx : MemWriteTx) (table key value table' key' : Bytes)
    → write_get (put tx table key value) table' key' ≡ (
        if is_eq (pair_cmp (table', key') (table, key))
        then some value
        else write_get tx table' key')
unfolding put
write_get-put tx table key value table' key' =
    write_get-over (put tx table key value) table' key'
    ∙ ap (λ o. over o (snapshot_get tx.snapshot table' key'))
        (BTreeMap.get-insert tx.pending (table, key) (some value) (table', key'))
    ∙ split (is_eq (pair_cmp (table', key') (table, key)))
  where
    split :
        (b : Bool)
        → over
            (if b then some (some value) else BTreeMap.get tx.pending (table', key'))
            (snapshot_get tx.snapshot table' key')
          ≡ (if b then some value else write_get tx table' key')
    split true = refl
    split false = sym (write_get-over tx table' key')

abbrev pub get_of : MemWriteTx → Bytes → Bytes → Result (Option Bytes)
get_of tx table key = ok (write_get tx table key)

abbrev pub put_of : MemWriteTx → Bytes → Bytes → Bytes → Result MemWriteTx
put_of tx table key value = ok (put tx table key value)

pub get_of-put_of :
    (tx tx' : MemWriteTx) (table key value : Bytes)
    → put_of tx table key value ≡ ok tx'
    → get_of tx' table key ≡ ok (some value)
get_of-put_of tx tx' table key value h =
    let e : put tx table key value ≡ tx' = cc in
    ap (λ w. get_of w table key) (sym e)
    ∙ ap ok
        (write_get-put tx table key value table key ∙ rw (pair_cmp-IsTotal.self_equal (table, key)))

pub get_of-put_of_other :
    (tx tx' : MemWriteTx) (table key value table' key' : Bytes)
    → put_of tx table key value ≡ ok tx'
    → is_eq (pair_cmp (table', key') (table, key)) ≡ false
    → get_of tx' table' key' ≡ get_of tx table' key'
get_of-put_of_other tx tx' table key value table' key' h other =
    let e : put tx table key value ≡ tx' = cc in
    ap (λ w. get_of w table' key') (sym e)
    ∙ ap ok (write_get-put tx table key value table' key' ∙ rw other)

-- The memory backend meets what the layers above rely on.
abbrev pub mem_write_tx : StorageWriteTx
mem_write_tx = record {
  Tx = MemWriteTx;
  get = get_of;
  put = put_of;
  get-put = get_of-put_of;
  get-put_other = get_of-put_of_other;
}
