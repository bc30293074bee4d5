-- ===== src/Value.antt =====
-- crates/bkndb-core/src/value.rs: the values of properties and columns, and their sortable keys.
-- Strings are their UTF-8 bytes. A float is its bit pattern: the operations on floats that the code
-- calls are a parameter, and so is the cast of an `i64` to a float.
pub mod Sortable
use Prim.Native.Nat.{compare, bit_xor, Ordering}
use Prim.Native.Nat.Ordering.{lt, eq, gt}
use bkndb.Prelude.{
  ℕ, ◌^◌, List, [], ◌∷◌, ◌++◌, Bool, true, false, ◌&&◌, ◌||◌, Option, none, some, ◌==◌,
  if◌then◌else◌,
}
use bkndb.Prelude.Order.{bytes_cmp, is_eq}
use bkndb.Prelude.BigEndian.{to_be}
use bkndb.Prelude.Int.{ℤ, int_cmp, to_u64}

mutual
  pub data PropValue : Type 0 where
    null : PropValue
    bool : Bool → PropValue
    int : ℤ → PropValue
    float : ℕ → PropValue
    str bytes : List ℕ → PropValue
    timestamp : ℤ → PropValue
    uuid : List ℕ → PropValue
    list : Values → PropValue
    map : Fields → PropValue

  pub data Values : Type 0 where
    nil : Values
    cons : PropValue → Values → Values

  -- A `BTreeMap<String, PropValue>`, its entries ascending.
  pub data Fields : Type 0 where
    end : Fields
    field : List ℕ → PropValue → Fields → Fields

-- `ColumnKind` and `ColumnKind::of`, relational/schema/mod.rs
pub data ColumnKind : Type 0 where
  null_kind bool_kind int_kind float_kind str_kind bytes_kind : ColumnKind
  timestamp_kind uuid_kind list_kind map_kind : ColumnKind

unfoldable pub kind_of : PropValue → ColumnKind
kind_of null = null_kind
kind_of (bool b) = bool_kind
kind_of (int n) = int_kind
kind_of (float x) = float_kind
kind_of (str s) = str_kind
kind_of (bytes b) = bytes_kind
kind_of (timestamp t) = timestamp_kind
kind_of (uuid u) = uuid_kind
kind_of (list l) = list_kind
kind_of (map m) = map_kind

unfoldable pub is_keyable : ColumnKind → Bool
is_keyable int_kind = true
is_keyable str_kind = true
is_keyable timestamp_kind = true
is_keyable uuid_kind = true
is_keyable _ = false

-- `s.as_bytes().contains(&0)`
unfoldable pub contains_nul : List ℕ → Bool
contains_nul [] = false
contains_nul (b ∷ s) = b == 0 || contains_nul s

-- Two's complement with the sign bit flipped, big-endian.
unfoldable pub int_key : ℤ → List ℕ
int_key n = to_be 8 (bit_xor (to_u64 n) (2 ^ 63))

unfoldable pub sortable_key : PropValue → Option (List ℕ)
unfolding contains_nul int_key
sortable_key (int n) = some (int_key n)
sortable_key (timestamp t) = some (int_key t)
sortable_key (str s) = if contains_nul s then none else some (s ++ 0 ∷ [])
sortable_key (uuid u) = some u
sortable_key _ = none

bool_cmp : Bool → Bool → Ordering
bool_cmp true true = eq
bool_cmp true false = gt
bool_cmp false true = lt
bool_cmp false false = eq

-- The operations of `f64` that a comparison uses.
pub record Float : Type 0 where
  pub partial_cmp : ℕ → ℕ → Option Ordering
  pub equal : ℕ → ℕ → Bool
  pub of_i64 : ℤ → ℕ

-- Two nulls in lists are equal; elsewhere a null compares to nothing.
unless_nulls : PropValue → PropValue → Option Ordering → Option Ordering
unless_nulls null null c = some eq
unless_nulls a b c = c

-- The rest of a list comparison after two elements.
after_elements : Option Ordering → Option Ordering → Option Ordering
after_elements (some eq) rest = rest
after_elements first rest = first

module _ (f : Float) where
  -- The derived `PartialEq`.
  mutual
    pub value_eq : PropValue → PropValue → Bool
    value_eq null null = true
    value_eq (bool a) (bool b) = is_eq (bool_cmp a b)
    value_eq (int a) (int b) = is_eq (int_cmp a b)
    value_eq (float a) (float b) = f.equal a b
    value_eq (str a) (str b) = is_eq (bytes_cmp a b)
    value_eq (bytes a) (bytes b) = is_eq (bytes_cmp a b)
    value_eq (timestamp a) (timestamp b) = is_eq (int_cmp a b)
    value_eq (uuid a) (uuid b) = is_eq (bytes_cmp a b)
    value_eq (list a) (list b) = values_eq a b
    value_eq (map a) (map b) = fields_eq a b
    value_eq _ _ = false

    pub values_eq : Values → Values → Bool
    values_eq nil nil = true
    values_eq (cons a as_) (cons b bs) = value_eq a b && values_eq as_ bs
    values_eq _ _ = false

    pub fields_eq : Fields → Fields → Bool
    fields_eq end end = true
    fields_eq (field k a as_) (field j b bs) =
        is_eq (bytes_cmp k j) && (value_eq a b && fields_eq as_ bs)
    fields_eq _ _ = false

  unfoldable mutual
    unfolding bool_cmp after_elements unless_nulls

    pub compare_values : PropValue → PropValue → Option Ordering
    compare_values (int x) (int y) = some (int_cmp x y)
    compare_values (float x) (float y) = f.partial_cmp x y
    compare_values (int x) (float y) = f.partial_cmp (f.of_i64 x) y
    compare_values (float x) (int y) = f.partial_cmp x (f.of_i64 y)
    compare_values (str x) (str y) = some (bytes_cmp x y)
    compare_values (bool x) (bool y) = some (bool_cmp x y)
    compare_values (bytes x) (bytes y) = some (bytes_cmp x y)
    compare_values (timestamp x) (timestamp y) = some (int_cmp x y)
    compare_values (uuid x) (uuid y) = some (bytes_cmp x y)
    compare_values (list x) (list y) = compare_lists x y
    compare_values (map x) (map y) = if fields_eq x y then some eq else none
    compare_values _ _ = none

    -- The loop over the pairs, and the lengths where one list ends.
    pub compare_lists : Values → Values → Option Ordering
    compare_lists nil nil = some eq
    compare_lists nil (cons b bs) = some lt
    compare_lists (cons a as_) nil = some gt
    compare_lists (cons a as_) (cons b bs) =
        after_elements (unless_nulls a b (compare_values a b)) (compare_lists as_ bs)
