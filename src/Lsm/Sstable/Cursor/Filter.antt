-- ===== src/Lsm/Sstable/Cursor/Filter.antt =====
-- crates/bkndb-storage-lsm/src/sstable/cursor.rs: the two tests of a cursor select the range of
-- ascending entries.
use Prim.Native.Nat.Ordering.{lt}
use bkndb.Prelude.{
  ℕ, ◌≡◌, refl, ap, sym, ◌∙◌, arith, List, [], ◌∷◌, Bool, true, false, not, ◌&&◌, Bool-cases, inl,
  inr,
}
use bkndb.Prelude.Order.{Ord, bytes_cmp, bytes_ord, is_lt, is_le}
use bkndb.Prelude.BTreeMap.{
  Bound, included, excluded, unbounded, in_bounds, above_lower, below_upper, range, IsSorted, Above,
}
use bkndb.Lsm.Memtable.{Entry}
use bkndb.Lsm.Sstable.{past_end, below_start}
use bkndb.Lsm.Sstable.Block.{from_start}
use bkndb.Lsm.Sstable.Cursor.Drain.{until_end}

module _ {ℓ} {K : Type ℓ} ⦃o : Ord K⦄ where
  le_not_lt : (a b : K) → is_le (o.cmp a b) ≡ not (is_lt (o.cmp b a))
  le_not_lt a b = ground (
    arith,
    o.greater_of_less a b,
    o.greater_of_less b a,
    o.less_of_greater a b,
    o.less_of_greater b a,
  )

  lt_not_le : (a b : K) → is_lt (o.cmp a b) ≡ not (is_le (o.cmp b a))
  lt_not_le a b = ground (
    arith,
    o.greater_of_less a b,
    o.greater_of_less b a,
    o.less_of_greater a b,
    o.less_of_greater b a,
  )

  past_further :
      (k j b : K) → o.cmp k j ≡ lt → is_le (o.cmp k b) ≡ false → is_le (o.cmp j b) ≡ false
  past_further k j b h p = ground (arith, o.less_trans k j b, o.same_of_equal j b)

  past_further_strict :
      (k j b : K) → o.cmp k j ≡ lt → is_lt (o.cmp k b) ≡ false → is_lt (o.cmp j b) ≡ false
  past_further_strict k j b h p = ground (arith, o.less_trans k j b)

not-not : (b : Bool) → not (not b) ≡ b
not-not true = refl
not-not false = refl

pub not-below_start : (k : List ℕ) (lo : Bound (List ℕ)) → above_lower lo k ≡ not (below_start k lo)
unfolding below_start
not-below_start k (included b) = le_not_lt b k
not-below_start k (excluded b) = lt_not_le b k
not-below_start k unbounded = refl

pub not-past_end : (k : List ℕ) (hi : Bound (List ℕ)) → below_upper hi k ≡ not (past_end k hi)
unfolding past_end
not-past_end k (included b) = sym (not-not (is_le (bytes_cmp k b)))
not-past_end k (excluded b) = sym (not-not (is_lt (bytes_cmp k b)))
not-past_end k unbounded = refl

further :
    (k j : List ℕ) (hi : Bound (List ℕ))
    → bytes_cmp k j ≡ lt
    → past_end k hi ≡ true
    → past_end j hi ≡ true
unfolding past_end
further k j (included b) h p =
    ap not (past_further k j b h (sym (not-not (is_le (bytes_cmp k b))) ∙ ap not p))
further k j (excluded b) h p =
    ap not (past_further_strict k j b h (sym (not-not (is_lt (bytes_cmp k b))) ∙ ap not p))
further k j unbounded h p = cc

range_past :
    (k : List ℕ) (lo hi : Bound (List ℕ)) (es : List Entry)
    → Above k es
    → past_end k hi ≡ true
    → range es lo hi ≡ []
unfolding range
range_past k lo hi [] a p = refl
range_past k lo hi ((j, v) ∷ es) a p =
    let out : in_bounds lo hi j ≡ false =
      unfold in_bounds in
      rw (not-past_end j hi, further k j hi a.0 p) (and_false (above_lower lo j)) in
    rw out (range_past k lo hi es a.1 p)
  where
    and_false : (b : Bool) → (b && false) ≡ false
    and_false true = refl
    and_false false = refl

pub until_end-from_start :
    (lo hi : Bound (List ℕ)) (es : List Entry)
    → IsSorted es
    → until_end hi (from_start lo es) ≡ range es lo hi
unfolding until_end from_start range
until_end-from_start lo hi [] s = refl
until_end-from_start lo hi ((k, v) ∷ es) s = elim (Bool-cases (below_start k lo)) [
  | inl below ↦
      let out : in_bounds lo hi k ≡ false =
        unfold in_bounds in rw (not-below_start k lo, below) refl in
      rw (below, out) (until_end-from_start lo hi es s.1)
  | inr above ↦ elim (Bool-cases (past_end k hi)) [
    | inl past ↦
        let out : in_bounds lo hi k ≡ false =
          unfold in_bounds in rw (not-below_start k lo, above, not-past_end k hi, past) refl in
        rw (above, past, out) (sym (range_past k lo hi es s.0 past))
    | inr inside ↦
        let here : in_bounds lo hi k ≡ true =
          unfold in_bounds in rw (not-below_start k lo, above, not-past_end k hi, inside) refl in
        rw (above, inside, here) (ap (◌∷◌ (k, v)) (until_end-from_start lo hi es s.1))
  ]
]
