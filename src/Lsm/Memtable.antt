-- ===== src/Lsm/Memtable.antt =====
-- crates/bkndb-storage-lsm/src/memtable.rs: the values that the engine keeps, and the size of a memtable.
use bkndb.Prelude.{Option, none, some, ℕ, ◌+◌, List, [], ◌∷◌, length}

pub data LsmValue : Type 0 where
  value : List ℕ → LsmValue
  tombstone : LsmValue

abbrev pub Entry : Type 0
Entry = List ℕ × LsmValue

-- A `BTreeMap`, its entries ascending.
abbrev pub Memtable : Type 0
Memtable = List Entry

unfoldable pub value_size : LsmValue → ℕ
value_size (value bytes) = length bytes
value_size tombstone = 0

unfoldable pub memtable_byte_size : Memtable → ℕ
memtable_byte_size [] = 0
memtable_byte_size ((k, v) ∷ table) = length k + value_size v + memtable_byte_size table

-- What a reader sees: a tombstone is no value.
unfoldable pub live : Option LsmValue → Option (List ℕ)
live (some (value bytes)) = some bytes
live (some tombstone) = none
live none = none
