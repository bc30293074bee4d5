-- ===== src/Lsm/Merge/Drop.antt =====
-- crates/bkndb-storage-lsm/src/compaction.rs: an ascending list without the entry of a key that is
-- not past its first one, which is what a round of `next` leaves of a source.
use Prim.Native.Nat.Ordering.{lt}
use bkndb.Prelude.{
  ◌≡◌, refl, arith, [], ◌∷◌, true, false, none, if◌then◌else◌, Bool-cases, inl, inr,
}
use bkndb.Prelude.{◌≤◌, length}
use bkndb.Prelude.Order.{Ord, is_eq, is_le}
use bkndb.Prelude.BTreeMap.{BTreeMap, IsSorted, Above, Above-trans, get, get-Above}

module _ {ℓ κ} {K : Type ℓ} {V : Type κ} ⦃o : Ord K⦄ where
  -- No key of the list lies below.
  abbrev pub AtLeast : K → BTreeMap K V → Type 0
  AtLeast key [] = Unit
  AtLeast key ((k, v) ∷ l) = is_le (o.cmp key k) ≡ true

  unfoldable pub drop_key : K → BTreeMap K V → BTreeMap K V
  drop_key key [] = []
  drop_key key ((k, v) ∷ l) = if is_eq (o.cmp k key) then l else (k, v) ∷ l

  pub drop_key-first : (key : K) (v : V) (l : BTreeMap K V) → drop_key key ((key, v) ∷ l) ≡ l
  unfolding drop_key
  drop_key-first key v l = rw (o.self_equal key) refl

  pub drop_key_absent : (key : K) (l : BTreeMap K V) → Above key l → drop_key key l ≡ l
  unfolding drop_key
  drop_key_absent key [] a = refl
  drop_key_absent key ((k, v) ∷ l) a = ground (arith, o.same_of_equal k key, o.self_equal key)

  pub drop_key-IsSorted : (key : K) (l : BTreeMap K V) → IsSorted l → IsSorted (drop_key key l)
  unfolding drop_key
  drop_key-IsSorted key [] s = tt
  drop_key-IsSorted key ((k, v) ∷ l) s = elim (Bool-cases (is_eq (o.cmp k key))) [
    | inl e ↦ rw e (s.1)
    | inr e ↦ rw e s
  ]

  pub drop_key-Above : (b key : K) (l : BTreeMap K V) → Above b l → Above b (drop_key key l)
  unfolding drop_key
  drop_key-Above b key [] a = tt
  drop_key-Above b key ((k, v) ∷ l) a = elim (Bool-cases (is_eq (o.cmp k key))) [
    | inl e ↦ rw e (a.1)
    | inr e ↦ rw e a
  ]

  pub drop_key-past :
      (key : K) (l : BTreeMap K V) → IsSorted l → AtLeast key l → Above key (drop_key key l)
  unfolding drop_key
  drop_key-past key [] s a = tt
  drop_key-past key ((k, v) ∷ l) s a = ground (
    arith,
    o.same_of_equal k key,
    o.same_of_equal key k,
    o.self_equal key,
    λ (h : o.cmp key k ≡ lt). Above-trans key k l h s.0,
  )

  pub get-drop_key :
      (key : K) (l : BTreeMap K V) (x : K)
      → is_eq (o.cmp x key) ≡ false
      → get (drop_key key l) x ≡ get l x
  unfolding get drop_key
  get-drop_key key [] x h = refl
  get-drop_key key ((k, v) ∷ l) x h =
      ground (arith, o.same_of_equal x k, o.same_of_equal k key, o.self_equal key)

  pub length-drop_key : (key : K) (l : BTreeMap K V) → length (drop_key key l) ≤ length l
  unfolding drop_key
  length-drop_key key [] = omega arith
  length-drop_key key ((k, v) ∷ l) = elim (Bool-cases (is_eq (o.cmp k key))) [
    | inl e ↦ rw e (omega arith)
    | inr e ↦ rw e (omega arith)
  ]

  -- A list that begins past a key does not hold it.
  pub get_past : (key : K) (l : BTreeMap K V) → Above key l → get l key ≡ none
  get_past key l a = get-Above key key l (self key) a
    where
      self : (key : K) → is_le (o.cmp key key) ≡ true
      self key = ground (arith, o.self_equal key)

  pub past_first :
      (key k : K) (v : V) (l : BTreeMap K V)
      → IsSorted ((k, v) ∷ l)
      → o.cmp key k ≡ lt
      → Above key ((k, v) ∷ l)
  past_first key k v l s h = (h, Above-trans key k l h s.0)
