-- ===== src/Lsm/Bounds.antt =====
-- crates/bkndb-storage-lsm/src/engine/tx.rs: a range of one table as a range of the shared keyspace.
use mathlib.Core.Path.{subst}
use bkndb.Prelude.{and_left, and_right, ℕ, ◌≡◌, refl, ap, ◌∙◌, arith, List, Bool, true, false}
use bkndb.Prelude.{◌&&◌, inl, inr, Bool-cases, length, drop}
use bkndb.Prelude.Order.{bytes_cmp, bytes_cmp-append, bytes_cmp-IsTotal, bytes_ord, is_lt, is_le}
use bkndb.Prelude.BTreeMap.{
  Bound, included, excluded, unbounded, in_bounds, above_lower, below_upper,
}
use bkndb.Prelude.Intervals.{empty_closed, empty_half_open, empty_open_half, empty_open}
use bkndb.Prelude.Bytes.{
  IsBytes, starts_with, starts_with-append, append-drop_of_starts_with, bytes_cmp-append_left,
  bytes_cmp-append_right, bytes_cmp-ne-eq_of_starts_with,
}
use bkndb.Lsm.Keys.{TableSpec, table_prefix, encode_key, prefix_upper_bound}
use bkndb.Lsm.Keys.Prefix.{end_of, upper_end, in_bounds-prefix}

unfoldable pub bounds_empty : Bound (List ℕ) → Bound (List ℕ) → Bool
bounds_empty (included a) (included b) = is_lt (bytes_cmp b a)
bounds_empty (included a) (excluded b) = is_le (bytes_cmp b a)
bounds_empty (excluded a) (included b) = is_le (bytes_cmp b a)
bounds_empty (excluded a) (excluded b) = is_le (bytes_cmp b a)
bounds_empty _ _ = false

unfoldable pub translate_bound : TableSpec → Bound (List ℕ) → Bound (List ℕ)
translate_bound table (included k) = included (encode_key table k)
translate_bound table (excluded k) = excluded (encode_key table k)
translate_bound table unbounded = unbounded

unfoldable pub table_lower : TableSpec → Bound (List ℕ) → Bound (List ℕ)
unfolding translate_bound
table_lower table unbounded = included (table_prefix table)
table_lower table (included k) = translate_bound table (included k)
table_lower table (excluded k) = translate_bound table (excluded k)

unfoldable pub table_upper : TableSpec → Bound (List ℕ) → Bound (List ℕ)
unfolding translate_bound
table_upper table unbounded = end_of (prefix_upper_bound (table_prefix table))
table_upper table (included k) = translate_bound table (included k)
table_upper table (excluded k) = translate_bound table (excluded k)

unfoldable pub table_scan_bounds :
    TableSpec → Bound (List ℕ) → Bound (List ℕ) → Bound (List ℕ) × Bound (List ℕ)
unfolding table_lower table_upper
table_scan_bounds table start end = (table_lower table start, table_upper table end)

open bytes_cmp-IsTotal use {greater_of_less}

-- A scan that `bounds_empty` skips would have found nothing.
pub bounds_empty-in_bounds :
    (lo hi : Bound (List ℕ)) (k : List ℕ) → bounds_empty lo hi ≡ true → in_bounds lo hi k ≡ false
unfolding bounds_empty in_bounds
bounds_empty-in_bounds (included a) (included b) k h = empty_closed a b k h
bounds_empty-in_bounds (included a) (excluded b) k h = empty_half_open a b k h
bounds_empty-in_bounds (included a) unbounded k h = cc
bounds_empty-in_bounds (excluded a) (included b) k h = empty_open_half a b k h
bounds_empty-in_bounds (excluded a) (excluded b) k h = empty_open a b k h
bounds_empty-in_bounds (excluded a) unbounded k h = cc
bounds_empty-in_bounds unbounded hi k h = cc

-- Inside the table the prefix cancels.
module _ (table : TableSpec) (d : List ℕ) (bytes : IsBytes (encode_key table d)) where
  prefix_in :
      in_bounds
        (included (table_prefix table))
        (upper_end (table_prefix table))
        (encode_key table d)
      ≡ true
  prefix_in =
      in_bounds-prefix (table_prefix table) (encode_key table d) bytes
      ∙ starts_with-append (table_prefix table) d

  lower_in :
      (start : Bound (List ℕ))
      → above_lower (table_lower table start) (encode_key table d) ≡ above_lower start d
  unfolding table_lower in_bounds
  lower_in (included k) = ap is_le (bytes_cmp-append (table_prefix table) k d)
  lower_in (excluded k) = ap is_lt (bytes_cmp-append (table_prefix table) k d)
  lower_in unbounded =
      and_left _ (below_upper (upper_end (table_prefix table)) (encode_key table d)) prefix_in

  upper_in :
      (end : Bound (List ℕ))
      → below_upper (table_upper table end) (encode_key table d) ≡ below_upper end d
  unfolding table_upper in_bounds
  upper_in (included k) = ap is_le (bytes_cmp-append (table_prefix table) d k)
  upper_in (excluded k) = ap is_lt (bytes_cmp-append (table_prefix table) d k)
  upper_in unbounded = and_right (is_le _) _ prefix_in

  own_scan :
      (start end : Bound (List ℕ))
      → in_bounds (table_lower table start) (table_upper table end) (encode_key table d)
        ≡ in_bounds start end d
  unfolding in_bounds
  own_scan start end = rw (lower_in start, upper_in end)

-- Outside of it every bound compares as the prefix does.
module _ (table : TableSpec) (k : List ℕ) (other : starts_with (table_prefix table) k ≡ false) where
  lower_out :
      (start : Bound (List ℕ))
      → above_lower (table_lower table start) k ≡ is_le (bytes_cmp (table_prefix table) k)
  unfolding table_lower
  lower_out (included a) = ap is_le (bytes_cmp-append_left (table_prefix table) a k other)
  lower_out (excluded a) =
      rw (bytes_cmp-append_left (table_prefix table) a k other)
        (ground (arith, bytes_cmp-ne-eq_of_starts_with (table_prefix table) k other))
  lower_out unbounded = refl

  upper_out : (b : List ℕ) → bytes_cmp k (encode_key table b) ≡ bytes_cmp k (table_prefix table)
  upper_out b = bytes_cmp-append_right (table_prefix table) b k other

  apart_le :
      (is_le (bytes_cmp (table_prefix table) k) && is_le (bytes_cmp k (table_prefix table))) ≡ false
  apart_le = ground (
    arith,
    bytes_cmp-ne-eq_of_starts_with (table_prefix table) k other,
    greater_of_less (table_prefix table) k,
  )

  apart_lt :
      (is_le (bytes_cmp (table_prefix table) k) && is_lt (bytes_cmp k (table_prefix table))) ≡ false
  apart_lt = ground (
    arith,
    bytes_cmp-ne-eq_of_starts_with (table_prefix table) k other,
    greater_of_less (table_prefix table) k,
  )

  scan_out :
      (start end : Bound (List ℕ))
      → IsBytes k
      → in_bounds (table_lower table start) (table_upper table end) k ≡ false
  unfolding in_bounds table_upper
  scan_out start (included b) bytes = rw (lower_out start, upper_out b) apart_le
  scan_out start (excluded b) bytes = rw (lower_out start, upper_out b) apart_lt
  scan_out start unbounded bytes =
      rw (lower_out start) (in_bounds-prefix (table_prefix table) k bytes ∙ other)

-- A scan of one table sees exactly the keys of that table whose user key lies in the asked range:
-- the bounds that it runs over select a key of bytes if it starts with the table's prefix and what
-- follows the prefix is in bounds.
pub in_bounds-table_scan :
    (table : TableSpec) (start end : Bound (List ℕ)) (k : List ℕ)
    → IsBytes k
    → in_bounds (table_scan_bounds table start end).0 (table_scan_bounds table start end).1 k ≡ (
        starts_with (table_prefix table) k
        && in_bounds start end (drop (length (table_prefix table)) k))
unfolding table_scan_bounds
in_bounds-table_scan table start end k bytes =
    elim (Bool-cases (starts_with (table_prefix table) k)) [
      | inr other ↦ rw other (scan_out table k other start end bytes)
      | inl own ↦ rw own (inside own)
    ]
  where
    inside :
        starts_with (table_prefix table) k ≡ true
        → in_bounds (table_lower table start) (table_upper table end) k
          ≡ in_bounds start end (drop (length (table_prefix table)) k)
    inside own =
        let e = append-drop_of_starts_with (table_prefix table) k own in
        let d = drop (length (table_prefix table)) k in
        ap (in_bounds (table_lower table start) (table_upper table end)) e
        ∙ own_scan table d (subst IsBytes e bytes) start end
