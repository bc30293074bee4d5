-- ===== src/Lsm/Merge/Lists.antt =====
-- crates/bkndb-storage-lsm/src/compaction.rs: what ascending lists, the newest first, hold together,
-- and the least of their first keys.
use Prim.Native.Nat.{compare}
use Prim.Native.Nat.Ordering.{lt}
use bkndb.Prelude.{
  ℕ, zero, suc, ◌+◌, ◌≤◌, ◌<◌, ◌≡◌, refl, ap, ◌∙◌, arith, List, [], ◌∷◌, true, false, Option, none,
  some, All, length, get_elem?, set,
}
use bkndb.Prelude.{or_else, or_else-none}
use bkndb.Prelude.Order.{Ord, is_le, is_eq, then_cmp}
use bkndb.Prelude.BTreeMap.{BTreeMap, IsSorted, Above, get}
use bkndb.Lsm.Merge.Drop.{
  AtLeast, drop_key, drop_key-first, drop_key_absent, drop_key-IsSorted, drop_key-Above,
  drop_key-past, get-drop_key, get_past, past_first, length-drop_key,
}

module _ {ℓ} {K : Type ℓ} ⦃o : Ord K⦄ where
  le_of_least :
      (key k : K) (i n : ℕ)
      → is_le (then_cmp (o.cmp key k) (compare i n)) ≡ true
      → is_le (o.cmp key k) ≡ true
  le_of_least key k i n h = ground arith

  le_of_less : (key k : K) → o.cmp key k ≡ lt → is_le (o.cmp key k) ≡ true
  le_of_less key k h = ground arith

  less_before :
      (key k : K) (i n : ℕ)
      → n < i
      → is_le (then_cmp (o.cmp key k) (compare i n)) ≡ true
      → o.cmp key k ≡ lt
  less_before key k i n b h = ground arith

  past_others : (b key k : K) → o.cmp b key ≡ lt → is_le (o.cmp key k) ≡ true → o.cmp b k ≡ lt
  past_others b key k h a = ground (arith, o.same_of_equal key k, o.less_trans b key k)

module _ {ℓ κ} {K : Type ℓ} {V : Type κ} ⦃o : Ord K⦄ where
  unfoldable pub first_of : List (BTreeMap K V) → K → Option V
  first_of [] x = none
  first_of (l ∷ ls) x = or_else (get l x) (first_of ls x)

  first_of-older :
      (l : BTreeMap K V) (ls : List (BTreeMap K V)) (x : K)
      → get l x ≡ none
      → first_of (l ∷ ls) x ≡ first_of ls x
  unfolding first_of
  first_of-older l ls x h = rw h (unfold or_else in refl)

  first_of-first :
      (key : K) (v : V) (l : BTreeMap K V) (ls : List (BTreeMap K V))
      → first_of (((key, v) ∷ l) ∷ ls) key ≡ some v
  unfolding first_of get
  first_of-first key v l ls = rw (o.self_equal key) (unfold or_else in refl)

  abbrev pub drops : K → List (BTreeMap K V) → List (BTreeMap K V)
  drops key [] = []
  drops key (l ∷ ls) = drop_key key l ∷ drops key ls

  pub get_elem?-All {υ} :
      (P : BTreeMap K V → Type υ) (ls : List (BTreeMap K V)) (d : ℕ) {l : BTreeMap K V}
      → All P ls
      → get_elem? ls d ≡ some l
      → P l
  get_elem?-All P [] d a e = absurd (cc)
  get_elem?-All P (x ∷ ls) zero {l} a e = (let p : x ≡ l = cc in rw (← p) (a.0))
  get_elem?-All P (x ∷ ls) (suc d) a e = get_elem?-All P ls d a.1 e

  pub set-All {υ} :
      (P : BTreeMap K V → Type υ) (ls : List (BTreeMap K V)) (d : ℕ) (l : BTreeMap K V)
      → All P ls
      → P l
      → All P (set ls d l)
  set-All P [] d l a p = tt
  set-All P (x ∷ ls) zero l a p = (p, a.1)
  set-All P (x ∷ ls) (suc d) l a p = (a.0, set-All P ls d l a.1 p)

  pub drops-IsSorted :
      (key : K) (ls : List (BTreeMap K V)) → All IsSorted ls → All IsSorted (drops key ls)
  drops-IsSorted key [] s = tt
  drops-IsSorted key (l ∷ ls) s = (drop_key-IsSorted key l s.0, drops-IsSorted key ls s.1)

  pub drops-Above :
      (b key : K) (ls : List (BTreeMap K V)) → All (Above b) ls → All (Above b) (drops key ls)
  drops-Above b key [] a = tt
  drops-Above b key (l ∷ ls) a = (drop_key-Above b key l a.0, drops-Above b key ls a.1)

  pub drops-past :
      (key : K) (ls : List (BTreeMap K V))
      → All IsSorted ls
      → All (AtLeast key) ls
      → All (Above key) (drops key ls)
  drops-past key [] s a = tt
  drops-past key (l ∷ ls) s a = (drop_key-past key l s.0 a.0, drops-past key ls s.1 a.1)

  pub drops_absent : (key : K) (ls : List (BTreeMap K V)) → All (Above key) ls → drops key ls ≡ ls
  drops_absent key [] a = refl
  drops_absent key (l ∷ ls) a = rw (drop_key_absent key l a.0, drops_absent key ls a.1) refl

  -- The list whose first entry is taken loses nothing more.
  pub drops-set :
      (key : K) (ls : List (BTreeMap K V)) (d : ℕ) (v : V) (r : BTreeMap K V)
      → get_elem? ls d ≡ some ((key, v) ∷ r)
      → Above key r
      → drops key (set ls d r) ≡ drops key ls
  drops-set key [] d v r e a = refl
  drops-set key (l ∷ ls) zero v r e a =
      let p : l ≡ (key, v) ∷ r = cc in rw (p, drop_key-first key v r, drop_key_absent key r a) refl
  drops-set key (l ∷ ls) (suc d) v r e a = ap (◌∷◌ (drop_key key l)) (drops-set key ls d v r e a)

  pub first_of-drops :
      (key : K) (ls : List (BTreeMap K V)) (x : K)
      → is_eq (o.cmp x key) ≡ false
      → first_of (drops key ls) x ≡ first_of ls x
  unfolding first_of
  first_of-drops key [] x h = refl
  first_of-drops key (l ∷ ls) x h = rw (get-drop_key key l x h, first_of-drops key ls x h) refl

  abbrev pub total : List (BTreeMap K V) → ℕ
  total [] = 0
  total (l ∷ ls) = length l + total ls

  pub total-set :
      (ls : List (BTreeMap K V)) (d : ℕ) (k : K) (v : V) (r : BTreeMap K V)
      → get_elem? ls d ≡ some ((k, v) ∷ r)
      → suc (total (set ls d r)) ≡ total ls
  total-set [] d k v r e = absurd (cc)
  total-set (l ∷ ls) zero k v r e = (let p : l ≡ (k, v) ∷ r = cc in rw p (omega arith))
  total-set (l ∷ ls) (suc d) k v r e = omega (arith, total-set ls d k v r e)

  pub total-drops : (key : K) (ls : List (BTreeMap K V)) → total (drops key ls) ≤ total ls
  total-drops key [] = omega arith
  total-drops key (l ∷ ls) = omega (arith, length-drop_key key l, total-drops key ls)

  -- A key and the place of a list that are not past the first key of any list and its place.
  abbrev pub IsLeast : K → ℕ → ℕ → List (BTreeMap K V) → Type 0
  IsLeast key i n [] = Unit
  IsLeast key i n ([] ∷ ls) = IsLeast key i (suc n) ls
  IsLeast key i n (((k, v) ∷ l) ∷ ls) =
      (is_le (then_cmp (o.cmp key k) (compare i n)) ≡ true) × IsLeast key i (suc n) ls

  pub IsLeast-AtLeast :
      (key : K) (i n : ℕ) (ls : List (BTreeMap K V)) → IsLeast key i n ls → All (AtLeast key) ls
  IsLeast-AtLeast key i n [] a = tt
  IsLeast-AtLeast key i n ([] ∷ ls) a = (tt, IsLeast-AtLeast key i (suc n) ls a)
  IsLeast-AtLeast key i n (((k, v) ∷ l) ∷ ls) a =
      (le_of_least key k i n a.0, IsLeast-AtLeast key i (suc n) ls a.1)

  -- The newest list that holds the least key gives its value.
  pub first_of-least :
      (key : K) (i n : ℕ) (ls : List (BTreeMap K V)) (d : ℕ) (v : V) (r : BTreeMap K V)
      → i ≡ n + d
      → All IsSorted ls
      → IsLeast key i n ls
      → get_elem? ls d ≡ some ((key, v) ∷ r)
      → first_of ls key ≡ some v
  first_of-least key i n [] d v r e s a at = absurd (cc)
  first_of-least key i n (l ∷ ls) zero v r e s a at =
      let p : l ≡ (key, v) ∷ r = cc in rw p (first_of-first key v r ls)
  first_of-least key i n ([] ∷ ls) (suc d) v r e s a at =
      first_of-older [] ls key (get_past key [] tt)
      ∙ first_of-least key i (suc n) ls d v r (omega (arith, e)) s.1 a at
  first_of-least key i n (((k, w) ∷ l) ∷ ls) (suc d) v r e s a at =
      first_of-older ((k, w) ∷ l) ls key (
        get_past key ((k, w) ∷ l)
          (past_first key k w l s.0 (less_before key k i n (omega (arith, e)) a.0)))
      ∙ first_of-least key i (suc n) ls d v r (omega (arith, e)) s.1 a.1 at

  -- Whatever lies below the least key lies below every list.
  pub Above-AtLeast :
      (b key : K) (ls : List (BTreeMap K V))
      → o.cmp b key ≡ lt
      → All IsSorted ls
      → All (AtLeast key) ls
      → All (Above b) ls
  Above-AtLeast b key [] h s a = tt
  Above-AtLeast b key ([] ∷ ls) h s a = (tt, Above-AtLeast b key ls h s.1 a.1)
  Above-AtLeast b key (((k, v) ∷ l) ∷ ls) h s a =
      (past_first b k v l s.0 (past_others b key k h a.0), Above-AtLeast b key ls h s.1 a.1)

  pub AtLeast-past : (key : K) (l : BTreeMap K V) → Above key l → AtLeast key l
  AtLeast-past key [] a = tt
  AtLeast-past key ((k, v) ∷ l) a = le_of_less key k a.0

  pub first_of_past : (x : K) (ls : List (BTreeMap K V)) → All (Above x) ls → first_of ls x ≡ none
  unfolding first_of
  first_of_past x [] a = refl
  first_of_past x (l ∷ ls) a = rw (get_past x l a.0, first_of_past x ls a.1) (or_else-none none)
