-- ===== src/Lsm/Sstable/Write/Range.antt =====
-- crates/bkndb-storage-lsm/src/sstable/mod.rs: `min_key` and `max_key` of ascending entries.
use Prim.Native.Nat.Ordering.{lt}
use bkndb.Prelude.{◌≡◌, refl, arith, [], ◌∷◌, ◌++◌, true, not, Option, none, some, All}
use bkndb.Prelude.Order.{Ord, is_lt, is_le}
use bkndb.Prelude.BTreeMap.{BTreeMap, IsSorted, Above}

module _ {ℓ κ} {K : Type ℓ} {V : Type κ} where
  abbrev pub first_key : BTreeMap K V → Option K
  first_key [] = none
  first_key (e ∷ es) = some e.0

  abbrev pub last_key : K → BTreeMap K V → K
  last_key default [] = default
  last_key default (e ∷ es) = last_key e.0 es

  pub last_key-snoc :
      (default : K) (es : BTreeMap K V) (k : K) (v : V) → last_key default (es ++ (k, v) ∷ []) ≡ k
  last_key-snoc default [] k v = refl
  last_key-snoc default (e ∷ es) k v = last_key-snoc e.0 es k v

module _ {ℓ} {K : Type ℓ} ⦃o : Ord K⦄ where
  not_below_self : (k : K) → not (is_lt (o.cmp k k)) ≡ true
  not_below_self k = ground (arith, o.self_equal k)

  not_below_less : (k j : K) → o.cmp k j ≡ lt → not (is_lt (o.cmp j k)) ≡ true
  not_below_less k j h = ground (arith, o.greater_of_less k j)

  self_le : (k : K) → is_le (o.cmp k k) ≡ true
  self_le k = ground (arith, o.self_equal k)

  le_of_less_le : (k j i : K) → o.cmp k j ≡ lt → is_le (o.cmp j i) ≡ true → is_le (o.cmp k i) ≡ true
  le_of_less_le k j i h l = ground (arith, o.less_trans k j i, o.same_of_equal j i)

module _ {ℓ κ} {K : Type ℓ} {V : Type κ} ⦃o : Ord K⦄ where
  Above-not_below :
      (k : K) (es : BTreeMap K V) → Above k es → All (λ e. not (is_lt (o.cmp (e.0) k)) ≡ true) es
  Above-not_below k [] a = tt
  Above-not_below k ((j, v) ∷ es) a = (not_below_less k j a.0, Above-not_below k es a.1)

  pub first_not_below :
      (k : K) (v : V) (es : BTreeMap K V)
      → IsSorted ((k, v) ∷ es)
      → All (λ e. not (is_lt (o.cmp (e.0) k)) ≡ true) ((k, v) ∷ es)
  first_not_below k v es s = (not_below_self k, Above-not_below k es s.0)

  le-last_key :
      (k : K) (es : BTreeMap K V)
      → Above k es
      → IsSorted es
      → is_le (o.cmp k (last_key k es)) ≡ true
  le-last_key k [] a s = self_le k
  le-last_key k ((j, v) ∷ es) a s = le_of_less_le k j (last_key j es) a.0 (le-last_key j es s.0 s.1)

  pub last_not_above :
      (default : K) (es : BTreeMap K V)
      → IsSorted es
      → All (λ e. is_le (o.cmp (e.0) (last_key default es)) ≡ true) es
  last_not_above default [] s = tt
  last_not_above default ((k, v) ∷ es) s = (le-last_key k es s.0 s.1, last_not_above k es s.1)
