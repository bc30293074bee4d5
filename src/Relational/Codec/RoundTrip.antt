-- ===== src/Relational/Codec/RoundTrip.antt =====
-- crates/bkndb-core/src/relational/codec.rs: a key decodes to the value that it was made from.
use Prim.Native.Nat.{bit_xor}
use mathlib.Core.List.{reverse-append, reverse-reverse}
use bkndb.Prelude.{
  ℕ, ◌+◌, ◌-◌, ◌^◌, ◌≡◌, sym, ap, ◌∙◌, arith, List, [], ◌∷◌, ◌++◌, true, Option, none, some,
  reverse, length,
}
use bkndb.Prelude.Bytes.{IsBytes}
use bkndb.Prelude.Bits.{bit_xor-set, bit_xor-clear}
use bkndb.Prelude.BigEndian.{to_be, from_be, from_be-to_be, length-to_be}
use bkndb.Prelude.Int.{ℤ, pos, negsuc, IsI64, to_i64}
use bkndb.Prelude.Utf8.{is_utf8}
use bkndb.Error.{ok}
use bkndb.Value.{PropValue, int, str, timestamp, uuid, kind_of, int_key, sortable_key}
use bkndb.Value.Sortable.{biased, flip_sign, biased_bound, str_key, int_value, time_value}
use bkndb.Relational.Codec.{or_encoding, sortable_encode, decode_int, decode_str, decode_sortable}

-- What the type of a value says of it: 64-bit numbers, UTF-8 strings, 16 bytes of a UUID.
abbrev pub IsTyped : PropValue → Type 0
IsTyped (int n) = IsI64 n
IsTyped (timestamp n) = IsI64 n
IsTyped (str s) = IsBytes s × (is_utf8 s ≡ true)
IsTyped (uuid u) = IsBytes u × (length u ≡ 16)
IsTyped _ = Unit

flip_back : (n : ℤ) → IsI64 n → to_i64 (bit_xor (biased n) (2 ^ 63)) ≡ n
flip_back (pos n) h = rw (bit_xor-clear 63 n h) (unfold to_i64 in ground arith)
flip_back (negsuc n) h =
    rw (bit_xor-set 63 (2 ^ 63 - (n + 1)) (omega arith)) (unfold to_i64 in ground arith)

pub length-int_key : (n : ℤ) → length (int_key n) ≡ 8
unfolding int_key
length-int_key n = length-to_be 8 _

decode_int-int_key : (n : ℤ) → IsI64 n → decode_int (int_key n) ≡ ok n
unfolding decode_int
decode_int-int_key n h =
    let value : from_be (int_key n) ≡ biased n =
      unfold int_key in
      (ap (λ u. from_be (to_be 8 u)) (flip_sign n h)
        ∙ from_be-to_be 8 (biased n) (biased_bound n h)) in
    rw (length-int_key n, value, flip_back n h)

decode_str-terminated :
    (s : List ℕ) → is_utf8 s ≡ true → decode_str (reverse (s ++ 0 ∷ [])) ≡ ok (str s)
unfolding decode_str
decode_str-terminated s h = rw (reverse-append s (0 ∷ []), reverse-reverse s, h)

pub key_of_encoded :
    (v : PropValue) {key : List ℕ} → sortable_encode v ≡ ok key → sortable_key v ≡ some key
unfolding sortable_encode
key_of_encoded v {key} h = go (sortable_key v) h
  where
    go : (o : Option (List ℕ)) → or_encoding o ≡ ok key → o ≡ some key
    go none e = cc
    go (some k) e = cc

-- The sortable key of a well-typed value decodes to that value, in the column kind of the value.
pub decode_sortable-sortable_encode :
    (v : PropValue) (key : List ℕ)
    → IsTyped v
    → sortable_encode v ≡ ok key
    → decode_sortable (kind_of v) key ≡ ok v
unfolding decode_sortable kind_of
decode_sortable-sortable_encode (int n) key t h =
    rw (int_value n key (key_of_encoded (int n) h), decode_int-int_key n t)
decode_sortable-sortable_encode (timestamp n) key t h =
    rw (time_value n key (key_of_encoded (timestamp n) h), decode_int-int_key n t)
decode_sortable-sortable_encode (str s) key t h =
    rw ((str_key s (key_of_encoded (str s) h)).1) (decode_str-terminated s t.1)
decode_sortable-sortable_encode (uuid u) key t h =
    let e : u ≡ key = unfold sortable_encode sortable_key in cc in
    let len : length key ≡ 16 = ap length (sym e) ∙ t.1 in rw (len, e)
decode_sortable-sortable_encode v key t h = unfold sortable_encode sortable_key in cc
