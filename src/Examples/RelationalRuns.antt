-- ===== src/Examples/RelationalRuns.antt =====
-- crates/bkndb-core/src/relational/codec.rs and value.rs, at concrete values.
use Prim.Native.Nat.Ordering.{eq}
use bkndb.Prelude.{ℕ, ◌≡◌, refl, List, [], ◌∷◌, ◌++◌, ◌&&◌, ◌-◌, ◌^◌, arith, true, some}
use bkndb.Prelude.Order.{bytes_cmp, bytes_ord}
use bkndb.Prelude.Int.{pos, negsuc, to_u64}
use bkndb.Prelude.Utf8.{is_utf8}
use bkndb.Prelude.BTreeMap.{Bound, included, excluded, unbounded, in_bounds}
use bkndb.Error.{ok}
use bkndb.Value.{
  PropValue, int, str, Float, contains_nul, kind_of, int_key, sortable_key, compare_values,
}
use bkndb.Value.Sortable.{bytes_cmp-sortable_key}
use bkndb.Relational.Codec.{sortable_encode, decode_sortable, index_key, pk_from_index_key}
use bkndb.Prelude.BigEndian.{to_be}
use bkndb.Relational.Codec.RoundTrip.{key_of_encoded, decode_sortable-sortable_encode}
use bkndb.Relational.Codec.Index.{pk_from_index_key-index_key}
use bkndb.Relational.Codec.Bounds.{prefix_upper_bound, lower_bound_bytes, upper_bound_bytes}
use bkndb.Relational.Codec.Bounds.Range.{above, below, index_range}

-- Floats as whole numbers.
abbrev whole_floats : Float
whole_floats = record { partial_cmp = λ a b. some (eq); equal = λ a b. true; of_i64 = λ n. 0 }

abbrev minus_two : PropValue
minus_two = int (negsuc 1)

abbrev five : PropValue
five = int (pos 5)

abbrev ab : PropValue
ab = str (b'a' ∷ b'b' ∷ [])

abbrev key_two : List ℕ
key_two = 0x7f ∷ 0xff ∷ 0xff ∷ 0xff ∷ 0xff ∷ 0xff ∷ 0xff ∷ 0xfe ∷ []

abbrev key_five : List ℕ
key_five = 0x80 ∷ 0 ∷ 0 ∷ 0 ∷ 0 ∷ 0 ∷ 0 ∷ 5 ∷ []

two_key : sortable_encode minus_two ≡ ok key_two
unfolding sortable_encode sortable_key int_key to_be to_u64
two_key = refl

five_key : sortable_encode five ≡ ok key_five
unfolding sortable_encode sortable_key int_key to_be to_u64
five_key = refl

ab_key : sortable_encode ab ≡ ok (b'a' ∷ b'b' ∷ 0 ∷ [])
unfolding sortable_encode sortable_key contains_nul
ab_key = refl

bytes_cmp-sortable_key_example :
    compare_values whole_floats minus_two five ≡ some (bytes_cmp key_two key_five)
unfolding kind_of
bytes_cmp-sortable_key_example =
    bytes_cmp-sortable_key whole_floats minus_two five key_two key_five (omega arith) (omega arith)
      refl (key_of_encoded minus_two two_key) (key_of_encoded five five_key)

decode_sortable-sortable_encode_example :
    decode_sortable (kind_of ab) (b'a' ∷ b'b' ∷ 0 ∷ []) ≡ ok ab
unfolding is_utf8
decode_sortable-sortable_encode_example =
    decode_sortable-sortable_encode ab (b'a' ∷ b'b' ∷ 0 ∷ []) (omega arith, refl) ab_key

-- An index on a string column over an integer key.
abbrev entry_key : List ℕ
entry_key = b'a' ∷ b'b' ∷ 0 ∷ key_two

ab_entry : index_key ab minus_two ≡ ok entry_key
unfolding index_key
ab_entry = rw (ab_key, two_key)

pk_from_index_key-index_key_example :
    pk_from_index_key (kind_of ab) (kind_of minus_two) entry_key ≡ ok minus_two
unfolding is_utf8
pk_from_index_key-index_key_example =
    pk_from_index_key-index_key ab minus_two entry_key (omega arith, refl) (omega arith) ab_entry

abbrev two_entry : List ℕ
two_entry = key_two ++ key_five

two_five : index_key minus_two five ≡ ok two_entry
unfolding index_key
two_five = rw (two_key, five_key)

-- The byte bounds of `-2 < value <= 5`.
abbrev past_two : Bound (List ℕ)
past_two = included (0x7f ∷ 0xff ∷ 0xff ∷ 0xff ∷ 0xff ∷ 0xff ∷ 0xff ∷ 0xff ∷ [])

abbrev past_five : Bound (List ℕ)
past_five = excluded (0x80 ∷ 0 ∷ 0 ∷ 0 ∷ 0 ∷ 0 ∷ 0 ∷ 6 ∷ [])

lower_two : lower_bound_bytes (excluded minus_two) ≡ ok past_two
unfolding lower_bound_bytes prefix_upper_bound
lower_two = rw two_key

upper_five : upper_bound_bytes (included five) ≡ ok past_five
unfolding upper_bound_bytes prefix_upper_bound
upper_five = rw five_key

index_range_example : in_bounds past_two past_five two_entry ≡ (
    above whole_floats (excluded minus_two) minus_two
    && below whole_floats (included five) minus_two)
unfolding kind_of
index_range_example =
    index_range whole_floats (excluded minus_two) (included five) minus_two five two_entry past_two
      past_five (omega arith) (omega arith) two_five (omega arith, refl) (omega arith, refl)
      lower_two upper_five (λ q. cc)

-- The greatest integer has no successor: what should lie above it is every key.
above_all : lower_bound_bytes (excluded (int (pos (2 ^ 63 - 1)))) ≡ ok unbounded
unfolding lower_bound_bytes sortable_encode sortable_key int_key to_be to_u64 prefix_upper_bound
above_all = refl
