-- ===== src/Value/Sortable.antt =====
-- crates/bkndb-core/src/value.rs: the order of sortable keys is the order of the values.
use Prim.Native.Nat.{compare, bit_xor}
use bkndb.Prelude.{
  ℕ, ◌+◌, ◌-◌, ◌<◌, ◌^◌, ◌≡◌, refl, sym, ap, ◌∙◌, arith, List, [], ◌∷◌, ◌++◌, false, some, inl, inr,
  Bool-cases,
}
use bkndb.Prelude.Bits.{bit_xor-set, bit_xor-clear}
use bkndb.Prelude.Order.{bytes_cmp}
use bkndb.Prelude.BigEndian.{bytes_cmp-to_be}
use bkndb.Prelude.Int.{ℤ, pos, negsuc, IsI64, int_cmp, to_u64}
use bkndb.Value.{
  PropValue, int, str, timestamp, uuid, Float, kind_of, contains_nul, int_key, sortable_key,
  compare_values,
}

-- What the sign flip makes of a number.
abbrev pub biased : ℤ → ℕ
biased (pos n) = n + 2 ^ 63
biased (negsuc n) = 2 ^ 63 - (n + 1)

pub flip_sign : (n : ℤ) → IsI64 n → bit_xor (to_u64 n) (2 ^ 63) ≡ biased n
unfolding to_u64
flip_sign (pos n) h = bit_xor-set 63 n h
flip_sign (negsuc n) h =
    let e : 2 ^ 64 - (n + 1) ≡ 2 ^ 63 - (n + 1) + 2 ^ 63 = omega arith in
    rw e (bit_xor-clear 63 (2 ^ 63 - (n + 1)) (omega arith))

pub biased_bound : (n : ℤ) → IsI64 n → biased n < 2 ^ 64
biased_bound (pos n) h = omega arith
biased_bound (negsuc n) h = omega arith

compare-biased : (a b : ℤ) → IsI64 a → IsI64 b → compare (biased a) (biased b) ≡ int_cmp a b
unfolding int_cmp
compare-biased (pos a) (pos b) h k = ground arith
compare-biased (pos a) (negsuc b) h k = ground arith
compare-biased (negsuc a) (pos b) h k = ground arith
compare-biased (negsuc a) (negsuc b) h k = ground arith

pub bytes_cmp-int_key :
    (a b : ℤ) → IsI64 a → IsI64 b → bytes_cmp (int_key a) (int_key b) ≡ int_cmp a b
unfolding int_key
bytes_cmp-int_key a b h k =
    rw (flip_sign a h, flip_sign b k)
      (bytes_cmp-to_be 8 (biased a) (biased b) (biased_bound a h) (biased_bound b k)
        ∙ compare-biased a b h k)

-- The terminator sorts a string before its extensions.
pub bytes_cmp-terminated :
    (s t : List ℕ)
    → contains_nul s ≡ false
    → contains_nul t ≡ false
    → bytes_cmp (s ++ 0 ∷ []) (t ++ 0 ∷ []) ≡ bytes_cmp s t
unfolding contains_nul bytes_cmp
bytes_cmp-terminated [] [] h k = refl
bytes_cmp-terminated [] (y ∷ t) h k = ground arith
bytes_cmp-terminated (x ∷ s) [] h k = ground arith
bytes_cmp-terminated (x ∷ s) (y ∷ t) h k = ground (arith, bytes_cmp-terminated s t)

pub str_key :
    (s : List ℕ) {key : List ℕ}
    → sortable_key (str s) ≡ some key
    → (contains_nul s ≡ false) × (key ≡ s ++ 0 ∷ [])
unfolding sortable_key
str_key s h = elim (Bool-cases (contains_nul s)) [
  | inl e ↦ cc (rw e at h)
  | inr e ↦ (e, let same : some (s ++ 0 ∷ []) ≡ some _ = rw e at h in cc)
]

pub int_value : (n : ℤ) (key : List ℕ) → sortable_key (int n) ≡ some key → key ≡ int_key n
unfolding sortable_key
int_value n key h = cc

pub time_value : (n : ℤ) (key : List ℕ) → sortable_key (timestamp n) ≡ some key → key ≡ int_key n
unfolding sortable_key
time_value n key h = cc

-- A number is in the range of its type.
abbrev pub InRange : PropValue → Type 0
InRange (int n) = IsI64 n
InRange (timestamp n) = IsI64 n
InRange _ = Unit

-- Two values of one kind, in the range of its type, that both have a sortable key compare as their
-- keys do, byte by byte.
pub bytes_cmp-sortable_key :
    (f : Float) (a b : PropValue) (ka kb : List ℕ)
    → InRange a
    → InRange b
    → kind_of a ≡ kind_of b
    → sortable_key a ≡ some ka
    → sortable_key b ≡ some kb
    → compare_values f a b ≡ some (bytes_cmp ka kb)
unfolding compare_values kind_of
bytes_cmp-sortable_key f (int a) (int b) ka kb ra rb k ha hb =
    rw (int_value a ka ha, int_value b kb hb, bytes_cmp-int_key a b ra rb)
bytes_cmp-sortable_key f (timestamp a) (timestamp b) ka kb ra rb k ha hb =
    rw (time_value a ka ha, time_value b kb hb, bytes_cmp-int_key a b ra rb)
bytes_cmp-sortable_key f (uuid a) (uuid b) ka kb ra rb k ha hb = unfold sortable_key in cc
bytes_cmp-sortable_key f (str a) (str b) ka kb ra rb k ha hb =
    let ea = str_key a ha in
    let eb = str_key b hb in rw (ea.1, eb.1) (ap some (sym (bytes_cmp-terminated a b ea.0 eb.0)))
bytes_cmp-sortable_key f a b ka kb ra rb k ha hb = unfold sortable_key in cc
