-- ===== src/Lsm/Keys.antt =====
-- crates/bkndb-storage-lsm/src/keys.rs: the tables of the storage trait as ranges of one flat
-- keyspace. A table name is the list of its UTF-8 bytes.
pub mod Prefix
use mathlib.Core.Option
use bkndb.Prelude.{ℕ, ◌+◌, List, [], ◌∷◌, ◌++◌, Option, none, some, reverse, length, ◌==◌}
use bkndb.Prelude.{if◌then◌else◌}

-- `TableSpec(&'static str)`, storage.rs
abbrev pub TableSpec : Type 0
TableSpec = List ℕ

-- The `assert!(name.len() <= u8::MAX)` of both functions is a hypothesis of the theorems that need
-- it; the length byte is the cast `as u8`.
abbrev pub table_prefix : TableSpec → List ℕ
table_prefix table = length table ∷ table

abbrev pub encode_key : TableSpec → List ℕ → List ℕ
encode_key table user_key = length table ∷ (table ++ user_key)

-- `while let Some(last) = out.pop()`: the bytes leave from the back, so the loop recurs on the
-- bytes in reverse.
unfoldable pub successor_back : List ℕ → Option (List ℕ)
successor_back [] = none
successor_back (last ∷ out) =
    let rest = successor_back out in if last == 0xff then rest else some ((last + 1) ∷ out)

unfoldable pub prefix_upper_bound : List ℕ → Option (List ℕ)
unfolding successor_back
prefix_upper_bound prefix = Option.map reverse (successor_back (reverse prefix))
