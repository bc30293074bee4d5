-- ===== src/Storage.antt =====
-- crates/bkndb-core/src/storage.rs: the trait of a write transaction, with what its clients rely on.
use bkndb.Prelude.{◌≡◌, List, ℕ, Option, some, false}
use bkndb.Prelude.Order.{is_eq, pair_ord, bytes_ord, pair_cmp}
use bkndb.Error.{Result, ok}

-- A value that was put is what the transaction reads, and the other keys keep theirs.
pub record StorageWriteTx : Type 1 where
  pub Tx : Type 0
  pub get : Tx → List ℕ → List ℕ → Result (Option (List ℕ))
  pub put : Tx → List ℕ → List ℕ → List ℕ → Result Tx
  pub get-put :
      (tx tx' : Tx) (table key value : List ℕ)
      → put tx table key value ≡ ok tx'
      → get tx' table key ≡ ok (some value)
  pub get-put_other :
      (tx tx' : Tx) (table key value table' key' : List ℕ)
      → put tx table key value ≡ ok tx'
      → is_eq (pair_cmp (table', key') (table, key)) ≡ false
      → get tx' table' key' ≡ get tx table' key'
