-- ===== src/Examples/KeyRuns.antt =====
-- crates/bkndb-storage-lsm/src/keys.rs and engine/tx.rs at concrete tables.
use bkndb.Prelude.{ℕ, ◌≡◌, refl, arith, List, [], ◌∷◌, ◌&&◌, none, some, drop, length, false}
use bkndb.Prelude.Order.{bytes_cmp, bytes_ord}
use bkndb.Prelude.BTreeMap.{included, excluded, unbounded, in_bounds}
use bkndb.Prelude.Bytes.{starts_with}
use bkndb.Lsm.Keys.{encode_key, table_prefix, prefix_upper_bound}
use bkndb.Lsm.Keys.Prefix.{upper_end, in_bounds-prefix}
use bkndb.Lsm.Bounds.{table_scan_bounds, in_bounds-table_scan, bounds_empty, bounds_empty-in_bounds}

-- The table "a" and the table "ab".
abbrev table_a : List ℕ
table_a = b'a' ∷ []

abbrev table_ab : List ℕ
table_ab = b'a' ∷ b'b' ∷ []

upper_of_ff : prefix_upper_bound (1 ∷ 0xff ∷ 0xff ∷ []) ≡ some (2 ∷ [])
unfolding prefix_upper_bound
upper_of_ff = refl

upper_of_all_ff : prefix_upper_bound (0xff ∷ 0xff ∷ []) ≡ none
unfolding prefix_upper_bound
upper_of_all_ff = refl

in_bounds-prefix_example :
    in_bounds
      (included (table_prefix table_a))
      (upper_end (table_prefix table_a))
      (encode_key table_ab (7 ∷ []))
    ≡ starts_with (table_prefix table_a) (encode_key table_ab (7 ∷ []))
in_bounds-prefix_example =
    in_bounds-prefix (table_prefix table_a) (encode_key table_ab (7 ∷ [])) (omega arith)

in_bounds-table_scan_example :
    in_bounds
      (table_scan_bounds table_a (included (3 ∷ [])) unbounded).0
      (table_scan_bounds table_a (included (3 ∷ [])) unbounded).1
      (encode_key table_a (7 ∷ []))
    ≡ (starts_with (table_prefix table_a) (encode_key table_a (7 ∷ []))
        && in_bounds
            (included (3 ∷ []))
            unbounded
            (drop (length (table_prefix table_a)) (encode_key table_a (7 ∷ []))))
in_bounds-table_scan_example =
    in_bounds-table_scan table_a (included (3 ∷ [])) unbounded (encode_key table_a (7 ∷ []))
      (omega arith)

abbrev nine : List ℕ
nine = 9 ∷ []

abbrev four : List ℕ
four = 4 ∷ []

bounds_empty-in_bounds_example : in_bounds (excluded nine) (excluded four) nine ≡ false
unfolding bounds_empty bytes_cmp
bounds_empty-in_bounds_example = bounds_empty-in_bounds (excluded nine) (excluded four) nine refl
