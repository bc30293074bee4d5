-- ===== src/Lsm/Engine/Faults.antt =====
-- crates/bkndb-storage-lsm/src/engine/write.rs: writes that the operating system fails, and the `?`
-- behind them.
use bkndb.Prelude.{ℕ, ◌≡◌, List, Option, none, some}
use bkndb.Error.{BknError, backend, Result, ok, err}

-- What the operating system answers to the writes of an operation: nothing, or an error. `log`, `table`
-- and `publish` are then what the file holds afterwards, for the log, for the table of a flush, and
-- for its manifest and its header; `compaction` is the error of a new container, with its temporary
-- file, its lock and its rename.
pub record Io : Type 0 where
  pub log : Option (List ℕ)
  pub table : Option (List ℕ)
  pub publish : Option (List ℕ)
  pub compaction : Option BknError

-- A write to the container: what it makes, or its error and the file that it leaves.
pub data Attempt (A : Type 0) : Type 0 where
  made : A → Attempt A
  broken : BknError → List ℕ → Attempt A

-- A write and its `?`, from the fault of the operating system, the file that an error of the code's own
-- leaves, and what is written if there is no fault.
unfoldable pub attempt : {A : Type 0} → Option (List ℕ) → List ℕ → Result A → Attempt A
attempt fault rejected (err e) = broken e rejected
attempt none rejected (ok a) = made a
attempt (some left) rejected (ok a) = broken backend left

unfoldable pub or_fault : {A : Type 0} → Option BknError → Result A → Result A
or_fault none r = r
or_fault (some e) (ok a) = err e
or_fault (some e) (err x) = err x

module _ {A : Type 0} where
  pub or_fault-ok :
      (fault : Option BknError) (r : Result A) (a : A) → or_fault fault r ≡ ok a → r ≡ ok a
  unfolding or_fault
  or_fault-ok none r a h = h
  or_fault-ok (some e) (ok b) a h = absurd (cc)
  or_fault-ok (some e) (err x) a h = absurd (cc)

  pub attempt-made :
      (fault : Option (List ℕ)) (rejected : List ℕ) (r : Result A) (a : A)
      → attempt fault rejected r ≡ made a
      → r ≡ ok a
  unfolding attempt
  attempt-made none rejected (ok b) a h = cc
  attempt-made (some left) rejected (ok b) a h = absurd (cc)
  attempt-made fault rejected (err e) a h = absurd (cc)
