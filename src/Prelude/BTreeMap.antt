-- ===== src/Prelude/BTreeMap.antt =====
-- `std::collections::BTreeMap` as its ascending list of entries.
use Prim.Native.Nat.{Ordering}
use Prim.Native.Nat.Ordering.{lt, eq, gt}
use mathlib.Core.Path.{◌≡◌, refl}
use mathlib.Core.Logic.{inl, inr}
use mathlib.Core.Bool.{Bool, true, ◌&&◌}
use mathlib.Core.Option.{Option, none, some}
use mathlib.Core.List.{List, [], ◌∷◌}
use native.Mathlib.Omega.{arith}
use bkndb.Prelude.Tests.{if◌then◌else◌, Bool-cases}
use bkndb.Prelude.Order.{Ord, is_lt, is_le, is_eq}

-- `std::ops::Bound`
pub data Bound {ℓ} (K : Type ℓ) : Type ℓ where
  included excluded : K → Bound K
  unbounded : Bound K

abbrev pub BTreeMap {ℓ κ} : Type ℓ → Type κ → Type (ℓ ⊔ κ)
BTreeMap K V = List (K × V)

-- The entry of an overlay, if it has one, or else the older value.
abbrev pub over {ℓ} : {V : Type ℓ} → Option V → V → V
over (some v) old = v
over none old = old

is_eq-is_le : (c : Ordering) → is_eq c ≡ true → is_le c ≡ true
is_eq-is_le c h = ground arith

module _ {ℓ} {K : Type ℓ} ⦃o : Ord K⦄ where
  -- `range` asks that a key is not below the lower bound, and not past the upper one.
  abbrev pub above_lower : Bound K → K → Bool
  above_lower (included b) k = is_le (o.cmp b k)
  above_lower (excluded b) k = is_lt (o.cmp b k)
  above_lower unbounded k = true

  abbrev pub below_upper : Bound K → K → Bool
  below_upper (included b) k = is_le (o.cmp k b)
  below_upper (excluded b) k = is_lt (o.cmp k b)
  below_upper unbounded k = true

  unfoldable pub in_bounds : Bound K → Bound K → K → Bool
  in_bounds lo hi k = above_lower lo k && below_upper hi k

module _ {ℓ κ} {K : Type ℓ} {V : Type κ} ⦃o : Ord K⦄ where
  unfoldable pub get : BTreeMap K V → K → Option V
  get [] k = none
  get ((j, v) ∷ m) k = if is_eq (o.cmp k j) then some v else get m k

  unfoldable pub insert : BTreeMap K V → K → V → BTreeMap K V
  insert [] k v = (k, v) ∷ []
  insert ((j, w) ∷ m) k v = elim (o.cmp k j) [
    | lt ↦ (k, v) ∷ (j, w) ∷ m
    | eq ↦ (k, v) ∷ m
    | gt ↦ (j, w) ∷ insert m k v
  ]

  unfoldable pub remove : BTreeMap K V → K → BTreeMap K V
  remove [] k = []
  remove ((j, w) ∷ m) k = let rest = remove m k in if is_eq (o.cmp k j) then rest else (j, w) ∷ rest

  unfoldable pub range : BTreeMap K V → Bound K → Bound K → BTreeMap K V
  range [] lo hi = []
  range ((k, v) ∷ m) lo hi =
      let rest = range m lo hi in if in_bounds lo hi k then (k, v) ∷ rest else rest

  -- A lookup after an insertion, a removal or a restriction.
  pub get-insert :
      (m : BTreeMap K V) (k : K) (v : V) (j : K)
      → get (insert m k v) j ≡ (if is_eq (o.cmp j k) then some v else get m j)
  unfolding get insert
  get-insert [] k v j = refl
  get-insert ((i, w) ∷ m) k v j =
      ground (arith, get-insert m k v j, o.same_of_equal k i, o.same_of_equal j k, o.self_equal k)

  pub get-remove :
      (m : BTreeMap K V) (k j : K)
      → get (remove m k) j ≡ (if is_eq (o.cmp j k) then none else get m j)
  unfolding get remove
  get-remove [] k j = ground arith
  get-remove ((i, w) ∷ m) k j = ground (
    arith,
    get-remove m k j,
    o.same_of_equal k i,
    o.same_of_equal j k,
    o.same_of_equal j i,
    o.self_equal k,
    o.self_equal i,
  )

  pub get-range :
      (m : BTreeMap K V) (lo hi : Bound K) (k : K)
      → get (range m lo hi) k ≡ (if in_bounds lo hi k then get m k else none)
  unfolding get range
  get-range [] lo hi k = ground arith
  get-range ((i, w) ∷ m) lo hi k = ground (arith, get-range m lo hi k, o.same_of_equal k i)

module _ {ℓ κ} {K : Type ℓ} {V : Type κ} ⦃o : Ord K⦄ where
  abbrev pub Above : K → BTreeMap K V → Type 0
  Above k [] = Unit
  Above k ((j, v) ∷ m) = (o.cmp k j ≡ lt) × Above k m

  -- The entries ascend strictly, so every key stands once.
  abbrev pub IsSorted : BTreeMap K V → Type 0
  IsSorted [] = Unit
  IsSorted ((k, v) ∷ m) = Above k m × IsSorted m

  pub Above-trans : (j k : K) (m : BTreeMap K V) → o.cmp j k ≡ lt → Above k m → Above j m
  Above-trans j k [] h a = tt
  Above-trans j k ((i, v) ∷ m) h a = (o.less_trans j k i h a.0, Above-trans j k m h a.1)

  Above-insert :
      (i : K) (m : BTreeMap K V) (k : K) (v : V)
      → o.cmp i k ≡ lt
      → Above i m
      → Above i (insert m k v)
  unfolding insert
  Above-insert i [] k v h a = (h, tt)
  Above-insert i ((j, w) ∷ m) k v h a = ground (arith, Above-insert i m k v h a.1)

  pub insert-IsSorted : (m : BTreeMap K V) (k : K) (v : V) → IsSorted m → IsSorted (insert m k v)
  unfolding insert
  insert-IsSorted [] k v s = (tt, tt)
  insert-IsSorted ((j, w) ∷ m) k v s = ground (
    arith,
    insert-IsSorted m k v s.1,
    o.less_of_greater k j,
    o.same_of_equal k j,
    Above-insert j m k v,
    λ (h : o.cmp k j ≡ lt). Above-trans k j m h s.0,
  )

  Above-range : (i : K) (m : BTreeMap K V) (lo hi : Bound K) → Above i m → Above i (range m lo hi)
  unfolding range
  Above-range i [] lo hi a = tt
  Above-range i ((j, w) ∷ m) lo hi a = ground (arith, Above-range i m lo hi a.1)

  pub range-IsSorted : (m : BTreeMap K V) (lo hi : Bound K) → IsSorted m → IsSorted (range m lo hi)
  unfolding range
  range-IsSorted [] lo hi s = tt
  range-IsSorted ((j, w) ∷ m) lo hi s =
      ground (arith, range-IsSorted m lo hi s.1, Above-range j m lo hi s.0)

  Above-remove : (i : K) (m : BTreeMap K V) (k : K) → Above i m → Above i (remove m k)
  unfolding remove
  Above-remove i [] k a = tt
  Above-remove i ((j, w) ∷ m) k a = ground (arith, Above-remove i m k a.1)

  pub remove-IsSorted : (m : BTreeMap K V) (k : K) → IsSorted m → IsSorted (remove m k)
  unfolding remove
  remove-IsSorted [] k s = tt
  remove-IsSorted ((j, w) ∷ m) k s = ground (arith, remove-IsSorted m k s.1, Above-remove j m k s.0)

  -- What lies below every key of a map is not in it.
  pub get-Above :
      (j k : K) (m : BTreeMap K V) → is_le (o.cmp k j) ≡ true → Above j m → get m k ≡ none
  unfolding get
  get-Above j k [] h a = refl
  get-Above j k ((i, w) ∷ m) h a = ground (
    arith,
    get-Above j k m h a.1,
    o.same_of_equal k j,
    o.same_of_equal k i,
    o.less_trans k j i,
    o.greater_of_less j k,
  )

  -- An overlay that is written out from its first entry on reads as the overlay itself.
  pub over-get-cons :
      (h : K) (v : V) (m : BTreeMap K V) (k : K) (old : V)
      → IsSorted ((h, v) ∷ m)
      → over (get m k) (if is_eq (o.cmp k h) then v else old) ≡ over (get ((h, v) ∷ m) k) old
  unfolding get
  over-get-cons h v m k old s = elim (Bool-cases (is_eq (o.cmp k h))) [
    | inl e ↦ rw (e, get-Above h k m (is_eq-is_le (o.cmp k h) e) s.0)
    | inr e ↦ rw e
  ]
