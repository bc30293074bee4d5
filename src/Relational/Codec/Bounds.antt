-- ===== src/Relational/Codec/Bounds.antt =====
-- crates/bkndb-core/src/relational/codec.rs: a range of column values as a range of index keys.
pub mod Delimited
pub mod Scan
pub mod Range
use mathlib.Core.Option
use bkndb.Prelude.{ℕ, ◌+◌, List, [], ◌∷◌, Option, none, some, reverse, ◌==◌, if◌then◌else◌}
use bkndb.Prelude.BTreeMap.{Bound, included, excluded, unbounded}
use bkndb.Error.{Result, ok, err, ◌>>=◌}
use bkndb.Value.{PropValue}
use bkndb.Relational.Codec.{sortable_encode}

-- `while let Some(last) = out.pop()`, on the bytes in reverse, as in `Lsm.Keys`.
pop_loop : List ℕ → Option (List ℕ)
pop_loop [] = none
pop_loop (last ∷ out) =
    let rest = pop_loop out in if last == 0xff then rest else some ((last + 1) ∷ out)

unfoldable pub prefix_upper_bound : List ℕ → Option (List ℕ)
unfolding pop_loop
prefix_upper_bound prefix = Option.map reverse (pop_loop (reverse prefix))

-- The two `match`es on `prefix_upper_bound`.
abbrev pub from_bound : Option (List ℕ) → Bound (List ℕ)
from_bound none = unbounded
from_bound (some b) = included b

abbrev pub to_bound : Option (List ℕ) → Bound (List ℕ)
to_bound none = unbounded
to_bound (some b) = excluded b

unfoldable pub lower_bound_bytes : Bound PropValue → Result (Bound (List ℕ))
lower_bound_bytes unbounded = ok unbounded
lower_bound_bytes (included v) = sortable_encode v >>= λ enc. ok (included enc)
lower_bound_bytes (excluded v) =
    sortable_encode v >>= λ enc. ok (from_bound (prefix_upper_bound enc))

unfoldable pub upper_bound_bytes : Bound PropValue → Result (Bound (List ℕ))
upper_bound_bytes unbounded = ok unbounded
upper_bound_bytes (excluded v) = sortable_encode v >>= λ enc. ok (excluded enc)
upper_bound_bytes (included v) = sortable_encode v >>= λ enc. ok (to_bound (prefix_upper_bound enc))
