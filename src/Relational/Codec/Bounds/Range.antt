-- ===== src/Relational/Codec/Bounds/Range.antt =====
-- crates/bkndb-core/src/relational/codec.rs: a range over an indexed column, as byte bounds, selects
-- the index keys of the values in the range.
use Prim.Native.Nat.{Ordering}
use mathlib.Core.Logic.{◌≢◌}
use bkndb.Prelude.{
  ℕ, ◌≡◌, sym, ◌∙◌, arith, List, [], ◌∷◌, ◌++◌, Bool, true, false, ◌&&◌, Option, none, some, length,
  All-append,
}
use bkndb.Prelude.Order.{bytes_cmp, bytes_ord, is_le, is_lt}
use bkndb.Prelude.BTreeMap.{
  Bound, included, excluded, unbounded, in_bounds, above_lower, below_upper,
}
use bkndb.Prelude.Bytes.{IsBytes, bytes_cmp-append_len}
use bkndb.Prelude.BigEndian.{to_be-IsBytes}
use bkndb.Error.{ok, ◌>>=◌, bind-eq-ok}
use bkndb.Value.{
  PropValue, null, bool, int, float, str, bytes, timestamp, uuid, list, map, Float, kind_of,
  int_key, sortable_key, compare_values,
}
use bkndb.Value.Sortable.{InRange, str_key, int_value, time_value, bytes_cmp-sortable_key}
use bkndb.Relational.Codec.{sortable_encode, index_key}
use bkndb.Relational.Codec.RoundTrip.{IsTyped, length-int_key, key_of_encoded}
use bkndb.Relational.Codec.Bounds.{
  prefix_upper_bound, to_bound, from_bound, lower_bound_bytes, upper_bound_bytes,
}
use bkndb.Relational.Codec.Bounds.Delimited.{Delimited, terminated-Delimited}
use bkndb.Relational.Codec.Bounds.Scan.{
  above_included, above_excluded, below_included, below_excluded,
}

-- The range over values, by the comparison of the query layer.
abbrev pub ordered_le : Option Ordering → Bool
ordered_le (some c) = is_le c
ordered_le none = false

abbrev pub ordered_lt : Option Ordering → Bool
ordered_lt (some c) = is_lt c
ordered_lt none = false

unfoldable pub above : Float → Bound PropValue → PropValue → Bool
above f (included b) v = ordered_le (compare_values f b v)
above f (excluded b) v = ordered_lt (compare_values f b v)
above f unbounded v = true

unfoldable pub below : Float → Bound PropValue → PropValue → Bool
below f (included b) v = ordered_le (compare_values f v b)
below f (excluded b) v = ordered_lt (compare_values f v b)
below f unbounded v = true

-- A bound on a column holds a value of the column's kind.
abbrev pub BoundFits : Bound PropValue → PropValue → Type 0
BoundFits (included b) v = IsTyped b × (kind_of b ≡ kind_of v)
BoundFits (excluded b) v = IsTyped b × (kind_of b ≡ kind_of v)
BoundFits unbounded v = Unit

-- A lower bound that excludes its value found a successor, which a key of 0xff bytes has not.
abbrev pub HasSuccessor : Bound PropValue → Bound (List ℕ) → Type 0
HasSuccessor (excluded b) lo = lo ≢ unbounded
HasSuccessor _ lo = Unit

in_range : (v : PropValue) → IsTyped v → InRange v
in_range (int n) t = t
in_range (timestamp n) t = t
in_range (str s) t = tt
in_range (uuid u) t = tt
in_range null t = tt
in_range (bool b) t = tt
in_range (float x) t = tt
in_range (bytes b) t = tt
in_range (list l) t = tt
in_range (map m) t = tt

uuid_value : (u key : List ℕ) → sortable_encode (uuid u) ≡ ok key → key ≡ u
unfolding sortable_encode sortable_key
uuid_value u key h = cc

pub sortable_encode-IsBytes :
    (v : PropValue) (key : List ℕ) → IsTyped v → sortable_encode v ≡ ok key → IsBytes key
sortable_encode-IsBytes (int n) key t h =
    rw (int_value n key (key_of_encoded (int n) h)) (unfold int_key in to_be-IsBytes 8 _)
sortable_encode-IsBytes (timestamp n) key t h =
    rw (time_value n key (key_of_encoded (timestamp n) h)) (unfold int_key in to_be-IsBytes 8 _)
sortable_encode-IsBytes (str s) key t h =
    rw ((str_key s (key_of_encoded (str s) h)).1) (All-append _ s (0 ∷ []) t.0 (omega arith))
sortable_encode-IsBytes (uuid u) key t h = rw (uuid_value u key h) t.0
sortable_encode-IsBytes v key t h = unfold sortable_encode sortable_key in cc

same_length-Delimited : (j k : List ℕ) → length j ≡ length k → Delimited j k
same_length-Delimited j k h a b = bytes_cmp-append_len j k a b h

encoded-Delimited :
    (b v : PropValue) (j k : List ℕ)
    → IsTyped b
    → IsTyped v
    → kind_of b ≡ kind_of v
    → sortable_encode b ≡ ok j
    → sortable_encode v ≡ ok k
    → Delimited j k
unfolding kind_of
encoded-Delimited (int b) (int v) j k tb tv s hb hv =
    rw (int_value b j (key_of_encoded (int b) hb), int_value v k (key_of_encoded (int v) hv))
      (same_length-Delimited (int_key b) (int_key v) (length-int_key b ∙ sym (length-int_key v)))
encoded-Delimited (timestamp b) (timestamp v) j k tb tv s hb hv =
    rw
      (
        time_value b j (key_of_encoded (timestamp b) hb),
        time_value v k (key_of_encoded (timestamp v) hv),
      )
      (same_length-Delimited (int_key b) (int_key v) (length-int_key b ∙ sym (length-int_key v)))
encoded-Delimited (str b) (str v) j k tb tv s hb hv =
    let eb = str_key b (key_of_encoded (str b) hb) in
    let ev = str_key v (key_of_encoded (str v) hv) in
    rw (eb.1, ev.1) (terminated-Delimited b v eb.0 ev.0)
encoded-Delimited (uuid b) (uuid v) j k tb tv s hb hv =
    rw (uuid_value b j hb, uuid_value v k hv) (same_length-Delimited b v (tb.1 ∙ sym tv.1))
encoded-Delimited b v j k tb tv s hb hv = unfold sortable_encode sortable_key in cc

module _ (f : Float) (v : PropValue) (k p : List ℕ) (typed : IsTyped v)
    (encoded : sortable_encode v ≡ ok k) (whole : IsBytes (k ++ p)) where
  -- A bound's value against the column's value.
  module _ (b : PropValue) (fits : IsTyped b × (kind_of b ≡ kind_of v)) (j : List ℕ)
      (e : sortable_encode b ≡ ok j) where
    apart : Delimited j k
    apart = encoded-Delimited b v j k fits.0 typed fits.1 e encoded

    bound-IsBytes : IsBytes j
    bound-IsBytes = sortable_encode-IsBytes b j fits.0 e

    bound_value : compare_values f b v ≡ some (bytes_cmp j k)
    bound_value =
        bytes_cmp-sortable_key f b v j k (in_range b fits.0) (in_range v typed) fits.1
          (key_of_encoded b e) (key_of_encoded v encoded)

    value_bound : compare_values f v b ≡ some (bytes_cmp k j)
    value_bound =
        bytes_cmp-sortable_key f v b k j (in_range v typed) (in_range b fits.0) (sym fits.1)
          (key_of_encoded v encoded) (key_of_encoded b e)

  lower_lem :
      (lo : Bound PropValue) (lo' : Bound (List ℕ))
      → BoundFits lo v
      → lower_bound_bytes lo ≡ ok lo'
      → HasSuccessor lo lo'
      → above_lower lo' (k ++ p) ≡ above f lo v
  unfolding lower_bound_bytes above
  lower_lem unbounded lo' fits h s = (let e : unbounded ≡ lo' = cc in rw (← e))
  lower_lem (included b) lo' fits h s =
      let parts = bind-eq-ok (sortable_encode b) (λ enc. ok (included enc)) h in
      let j = parts.0 in
      let e : included j ≡ lo' = cc (parts.2) in
      rw (← e, bound_value b fits j parts.1)
        (above_included j k p (apart b fits j parts.1) (bound-IsBytes b fits j parts.1) whole)
  lower_lem (excluded b) lo' fits h s =
      let parts =
        bind-eq-ok (sortable_encode b) (λ enc. ok (from_bound (prefix_upper_bound enc))) h in
      let j = parts.0 in
      let e : from_bound (prefix_upper_bound j) ≡ lo' = cc (parts.2) in
      rw (← e, bound_value b fits j parts.1)
        (above_excluded j k p (apart b fits j parts.1) (bound-IsBytes b fits j parts.1) whole
          (λ q. s (sym e ∙ q)))

  upper_lem :
      (hi : Bound PropValue) (hi' : Bound (List ℕ))
      → BoundFits hi v
      → upper_bound_bytes hi ≡ ok hi'
      → below_upper hi' (k ++ p) ≡ below f hi v
  unfolding upper_bound_bytes below
  upper_lem unbounded hi' fits h = (let e : unbounded ≡ hi' = cc in rw (← e))
  upper_lem (excluded b) hi' fits h =
      let parts = bind-eq-ok (sortable_encode b) (λ enc. ok (excluded enc)) h in
      let j = parts.0 in
      let e : excluded j ≡ hi' = cc (parts.2) in
      rw (← e, value_bound b fits j parts.1)
        (below_excluded j k p (apart b fits j parts.1) (bound-IsBytes b fits j parts.1) whole)
  upper_lem (included b) hi' fits h =
      let parts =
        bind-eq-ok (sortable_encode b) (λ enc. ok (to_bound (prefix_upper_bound enc))) h in
      let j = parts.0 in
      let e : to_bound (prefix_upper_bound j) ≡ hi' = cc (parts.2) in
      rw (← e, value_bound b fits j parts.1)
        (below_included j k p (apart b fits j parts.1) (bound-IsBytes b fits j parts.1) whole)

-- A range over an indexed column, turned into byte bounds, selects an index key exactly if the
-- indexed value lies in the range, when the bounds hold values of the column's kind and an excluded
-- lower bound has a successor.
pub index_range :
    (f : Float) (lo hi : Bound PropValue) (v pk : PropValue) (key : List ℕ)
    (lo' hi' : Bound (List ℕ))
    → IsTyped v
    → IsTyped pk
    → index_key v pk ≡ ok key
    → BoundFits lo v
    → BoundFits hi v
    → lower_bound_bytes lo ≡ ok lo'
    → upper_bound_bytes hi ≡ ok hi'
    → HasSuccessor lo lo'
    → in_bounds lo' hi' key ≡ (above f lo v && below f hi v)
unfolding in_bounds index_key
index_range f lo hi v pk key lo' hi' tv tp h fits_lo fits_hi e_lo e_hi s =
    let first = bind-eq-ok (sortable_encode v) (λ k. sortable_encode pk >>= λ p. ok (k ++ p)) h in
    let second = bind-eq-ok (sortable_encode pk) (λ p. ok (first.0 ++ p)) first.2 in
    let e : first.0 ++ second.0 ≡ key = cc (second.2) in
    let whole =
      All-append _ first.0 second.0 (sortable_encode-IsBytes v first.0 tv first.1)
        (sortable_encode-IsBytes pk second.0 tp second.1) in
    rw (
      ← e,
      lower_lem f v first.0 second.0 tv first.1 whole lo lo' fits_lo e_lo s,
      upper_lem f v first.0 second.0 tv first.1 whole hi hi' fits_hi e_hi,
    )
