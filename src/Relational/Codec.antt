-- ===== src/Relational/Codec.antt =====
-- crates/bkndb-core/src/relational/codec.rs: the sortable keys of rows and of secondary indexes.
pub mod RoundTrip
pub mod Index
pub mod Bounds
pub mod Counter
use Prim.Native.Nat.{bit_xor}
use mathlib.Core.Option
use bkndb.Prelude.{
  ℕ, suc, ◌+◌, ◌^◌, List, [], ◌∷◌, ◌++◌, Option, none, some, reverse, length, drop, ◌==◌,
  if◌then◌else◌,
}
use bkndb.Prelude.BTreeMap.{Bound, included, excluded, unbounded}
use bkndb.Prelude.BigEndian.{from_be}
use bkndb.Prelude.Int.{ℤ, to_i64}
use bkndb.Prelude.Utf8.{is_utf8}
use bkndb.Error.{Result, ok, err, ◌>>=◌, encoding}
use bkndb.Value.{
  PropValue, int, str, timestamp, uuid, ColumnKind, int_kind, str_kind, timestamp_kind, uuid_kind,
  sortable_key,
}

-- `ok_or_else(|| BknError::Encoding(...))`
abbrev pub or_encoding {ℓ} : {A : Type ℓ} → Option A → Result A
or_encoding none = err encoding
or_encoding (some a) = ok a

unfoldable pub sortable_encode : PropValue → Result (List ℕ)
sortable_encode value = or_encoding (sortable_key value)

-- The number of an `Int` or `Timestamp` key.
decode_int : List ℕ → Result ℤ
decode_int bytes =
    if length bytes == 8 then ok (to_i64 (bit_xor (from_be bytes) (2 ^ 63))) else err encoding

-- `split_last` of the key in reverse, its last byte first
decode_str : List ℕ → Result PropValue
decode_str [] = err encoding
decode_str (last ∷ rest) =
    if last == 0
    then (if is_utf8 (reverse rest) then ok (str (reverse rest)) else err encoding)
    else err encoding

unfoldable pub decode_sortable : ColumnKind → List ℕ → Result PropValue
unfolding decode_int decode_str
decode_sortable int_kind bytes = decode_int bytes >>= λ n. ok (int n)
decode_sortable timestamp_kind bytes = decode_int bytes >>= λ n. ok (timestamp n)
decode_sortable uuid_kind bytes = if length bytes == 16 then ok (uuid bytes) else err encoding
decode_sortable str_kind bytes = decode_str (reverse bytes)
decode_sortable _ bytes = err encoding

unfoldable pub index_key : PropValue → PropValue → Result (List ℕ)
index_key indexed_value pk =
    sortable_encode indexed_value >>= λ k. sortable_encode pk >>= λ p. ok (k ++ p)

-- `key.iter().position(|&b| b == 0)`
unfoldable pub nul_position : List ℕ → Option ℕ
nul_position [] = none
nul_position (b ∷ key) = if b == 0 then some 0 else Option.map suc (nul_position key)

unfoldable pub indexed_value_len : ColumnKind → List ℕ → Result ℕ
indexed_value_len int_kind key = ok 8
indexed_value_len timestamp_kind key = ok 8
indexed_value_len uuid_kind key = ok 16
indexed_value_len str_kind key = or_encoding (Option.map (λ p. p + 1) (nul_position key))
indexed_value_len _ key = err encoding

-- `&key[split..]` panics where the key is shorter than its first part, which is an error here.
unfoldable pub pk_from_index_key : ColumnKind → ColumnKind → List ℕ → Result PropValue
pk_from_index_key indexed_kind pk_kind key =
    indexed_value_len indexed_kind key >>= λ split. decode_sortable pk_kind (drop split key)
