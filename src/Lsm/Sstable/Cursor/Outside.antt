-- ===== src/Lsm/Sstable/Cursor/Outside.antt =====
-- crates/bkndb-storage-lsm/src/sstable/mod.rs: a range that does not meet the keys of a table.
use Prim.Native.Nat.Ordering.{lt}
use bkndb.Prelude.{ℕ, ◌≡◌, refl, arith, List, [], ◌∷◌, Bool, true, false, not, ◌&&◌, All}
use bkndb.Prelude.Order.{Ord, bytes_cmp, bytes_ord, is_lt, is_le}
use bkndb.Prelude.BTreeMap.{
  Bound, included, excluded, unbounded, in_bounds, above_lower, below_upper, range,
}
use bkndb.Lsm.Memtable.{Entry}
use bkndb.Lsm.Sstable.Cursor.{ends_below, starts_past}

pub range_none :
    (lo hi : Bound (List ℕ)) (es : List Entry)
    → All (λ e. in_bounds lo hi (e.0) ≡ false) es
    → range es lo hi ≡ []
unfolding range
range_none lo hi [] a = refl
range_none lo hi (e ∷ es) a = rw (a.0) (range_none lo hi es a.1)

module _ {ℓ} {K : Type ℓ} ⦃o : Ord K⦄ where
  pub lt_of_lt_le :
      (x k key : K) → is_lt (o.cmp x k) ≡ true → is_le (o.cmp k key) ≡ true → o.cmp x key ≡ lt
  lt_of_lt_le x k key h l = ground (arith, o.less_trans x k key, o.same_of_equal k key)

  past_low :
      (k low x : K)
      → is_lt (o.cmp k low) ≡ true
      → not (is_lt (o.cmp x low)) ≡ true
      → (is_le (o.cmp x k) ≡ false) × (is_lt (o.cmp x k) ≡ false)
  past_low k low x h l = ground (arith, o.less_trans x k low, o.same_of_equal x k)

  before_high :
      (k high x : K)
      → not (is_le (o.cmp k high)) ≡ true
      → is_le (o.cmp x high) ≡ true
      → (is_le (o.cmp k x) ≡ false) × (is_lt (o.cmp k x) ≡ false)
  before_high k high x h l =
      ground (arith, o.less_trans k x high, o.same_of_equal k x, o.same_of_equal x high)

out_above :
    (lo hi : Bound (List ℕ)) (k : List ℕ) → below_upper hi k ≡ false → in_bounds lo hi k ≡ false
unfolding in_bounds
out_above lo hi k e = rw e (and_false (above_lower lo k))
  where
    and_false : (b : Bool) → (b && false) ≡ false
    and_false true = refl
    and_false false = refl

out_below :
    (lo hi : Bound (List ℕ)) (k : List ℕ) → above_lower lo k ≡ false → in_bounds lo hi k ≡ false
unfolding in_bounds
out_below lo hi k e = rw e refl

pub All-past :
    (lo hi : Bound (List ℕ)) (low : List ℕ) (es : List Entry)
    → ends_below hi low ≡ true
    → All (λ e. not (is_lt (bytes_cmp (e.0) low)) ≡ true) es
    → All (λ e. in_bounds lo hi (e.0) ≡ false) es
unfolding ends_below
All-past lo hi low [] h a = tt
All-past lo (included k) low (e ∷ es) h a = (
  out_above lo (included k) e.0 (past_low k low e.0 h a.0).0,
  All-past lo (included k) low es h a.1,
)
All-past lo (excluded k) low (e ∷ es) h a = (
  out_above lo (excluded k) e.0 (past_low k low e.0 h a.0).1,
  All-past lo (excluded k) low es h a.1,
)
All-past lo unbounded low (e ∷ es) h a = cc

pub All-before :
    (lo hi : Bound (List ℕ)) (high : List ℕ) (es : List Entry)
    → starts_past lo high ≡ true
    → All (λ e. is_le (bytes_cmp (e.0) high) ≡ true) es
    → All (λ e. in_bounds lo hi (e.0) ≡ false) es
unfolding starts_past
All-before lo hi high [] h a = tt
All-before (included k) hi high (e ∷ es) h a = (
  out_below (included k) hi e.0 (before_high k high e.0 h a.0).0,
  All-before (included k) hi high es h a.1,
)
All-before (excluded k) hi high (e ∷ es) h a = (
  out_below (excluded k) hi e.0 (before_high k high e.0 h a.0).1,
  All-before (excluded k) hi high es h a.1,
)
All-before unbounded hi high (e ∷ es) h a = cc
