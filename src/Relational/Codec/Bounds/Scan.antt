-- ===== src/Relational/Codec/Bounds/Scan.antt =====
-- crates/bkndb-core/src/relational/codec.rs: which index keys a range over a column selects.
use Prim.Native.Nat.{Ordering}
use Prim.Native.Nat.Ordering.{lt, eq, gt}
use mathlib.Core.Logic.{◌≢◌}
use bkndb.Prelude.{
  ℕ, ◌≡◌, refl, sym, ap, ◌∙◌, List, ◌++◌, Bool, true, false, ◌&&◌, not, Option, none, some,
}
use bkndb.Prelude.Order.{bytes_cmp, bytes_ord, bytes_cmp-IsTotal, is_le, is_lt, is_eq}
use bkndb.Prelude.BTreeMap.{unbounded, above_lower, below_upper}
use bkndb.Prelude.Bytes.{IsBytes}
use bkndb.Relational.Codec.Bounds.{prefix_upper_bound, to_bound, from_bound}
use bkndb.Relational.Codec.Bounds.Delimited.{
  Delimited, is_le-append, starts_with-Delimited, prefix_end, below-to_bound,
}
open bytes_cmp-IsTotal use {greater_of_less, less_of_greater, same_of_equal, self_equal}

-- Either side of a comparison decides it.
is_lt-flip : (a b : List ℕ) → is_lt (bytes_cmp a b) ≡ not (is_le (bytes_cmp b a))
is_lt-flip a b = go (bytes_cmp a b) refl
  where
    go : (c : Ordering) → bytes_cmp a b ≡ c → is_lt c ≡ not (is_le (bytes_cmp b a))
    go lt e = rw (greater_of_less a b e)
    go gt e = rw (less_of_greater a b e)
    go eq e = rw (ap (λ x. bytes_cmp x a) (sym (same_of_equal a b e)) ∙ self_equal a)

is_le-flip : (a b : List ℕ) → is_le (bytes_cmp a b) ≡ not (is_lt (bytes_cmp b a))
is_le-flip a b = sym (ap not (is_lt-flip b a) ∙ twice (is_le (bytes_cmp a b)))
  where
    twice : (c : Bool) → not (not c) ≡ c
    twice true = refl
    twice false = refl

above_from_bound :
    (o : Option (List ℕ)) (k : List ℕ)
    → from_bound o ≢ unbounded
    → above_lower (from_bound o) k ≡ not (below_upper (to_bound o) k)
above_from_bound none k h = absurd (h refl)
above_from_bound (some b) k h = is_le-flip b k

-- `j` is the key of a bound and `k ++ p` an index key with the value key `k`.
module _ (j k p : List ℕ) (delimited : Delimited j k) (bytes_j : IsBytes j)
    (bytes : IsBytes (k ++ p)) where
  pub above_included : is_le (bytes_cmp j (k ++ p)) ≡ is_le (bytes_cmp j k)
  above_included = is_le-append j k delimited p

  pub below_excluded : is_lt (bytes_cmp (k ++ p) j) ≡ is_lt (bytes_cmp k j)
  below_excluded = is_lt-flip (k ++ p) j ∙ ap not above_included ∙ sym (is_lt-flip k j)

  pub below_included :
      below_upper (to_bound (prefix_upper_bound j)) (k ++ p) ≡ is_le (bytes_cmp k j)
  below_included = go (bytes_cmp j k) refl
    where
      both :
          (is_le (bytes_cmp j k) && below_upper (to_bound (prefix_upper_bound j)) (k ++ p))
          ≡ is_eq (bytes_cmp j k)
      both =
          rw (is_le-append j k delimited p, starts_with-Delimited j k delimited p) at
            (prefix_end j (k ++ p) bytes)

      go :
          (c : Ordering)
          → bytes_cmp j k ≡ c
          → below_upper (to_bound (prefix_upper_bound j)) (k ++ p) ≡ is_le (bytes_cmp k j)
      go lt e =
          let out : (true && below_upper (to_bound (prefix_upper_bound j)) (k ++ p)) ≡ false =
            rw e at both in
          out ∙ sym (ap is_le (greater_of_less j k e))
      go eq e =
          let own : (true && below_upper (to_bound (prefix_upper_bound j)) (k ++ p)) ≡ true =
            rw e at both in
          own ∙ sym (ap is_le (ap (bytes_cmp k) (same_of_equal j k e) ∙ self_equal k))
      go gt e =
          let less : bytes_cmp (k ++ p) j ≡ lt =
            lt_of (bytes_cmp (k ++ p) j) (below_excluded ∙ ap is_lt (less_of_greater j k e)) in
          below-to_bound j (k ++ p) bytes_j less ∙ sym (ap is_le (less_of_greater j k e))
        where
          lt_of : (c : Ordering) → is_lt c ≡ true → c ≡ lt
          lt_of lt h = refl
          lt_of eq h = cc
          lt_of gt h = cc

  pub above_excluded :
      from_bound (prefix_upper_bound j) ≢ unbounded
      → above_lower (from_bound (prefix_upper_bound j)) (k ++ p) ≡ is_lt (bytes_cmp j k)
  above_excluded h =
      above_from_bound (prefix_upper_bound j) (k ++ p) h
      ∙ ap not below_included
      ∙ sym (is_lt-flip j k)
