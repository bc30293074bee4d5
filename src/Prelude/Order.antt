-- ===== src/Prelude/Order.antt =====
-- `Ord`: the comparison that `BTreeMap` and the byte keys rest on, with the laws that Rust asks of it.
use Prim.Native.Nat.{ℕ, compare, Ordering}
use Prim.Native.Nat.Ordering.{lt, eq, gt}
use mathlib.Core.Path.{◌≡◌, refl}
use mathlib.Core.Bool.{Bool, true, false}
use mathlib.Core.List.{List, [], ◌∷◌, ◌++◌}
use native.Mathlib.Omega.{arith}

-- A total order by comparison: transitive, with the two sides mirrored, and equal only at itself.
pub record IsTotal {ℓ} {K : Type ℓ} (order : K → K → Ordering) : Type ℓ where
  pub less_trans : (x y z : K) → order x y ≡ lt → order y z ≡ lt → order x z ≡ lt
  pub less_of_greater : (x y : K) → order x y ≡ gt → order y x ≡ lt
  pub greater_of_less : (x y : K) → order x y ≡ lt → order y x ≡ gt
  pub same_of_equal : (x y : K) → order x y ≡ eq → x ≡ y
  pub self_equal : (x : K) → order x x ≡ eq

pub record Ord {ℓ} (K : Type ℓ) : Type ℓ where
  pub cmp : K → K → Ordering
  pub total : IsTotal cmp
  pub open total use *

abbrev pub is_lt : Ordering → Bool
is_lt lt = true
is_lt _ = false

abbrev pub is_le : Ordering → Bool
is_le gt = false
is_le _ = true

abbrev pub is_eq : Ordering → Bool
is_eq eq = true
is_eq _ = false

-- `Ordering::then_with`
abbrev pub then_cmp : Ordering → Ordering → Ordering
then_cmp eq second = second
then_cmp first _ = first

-- `[u8]::cmp`: byte strings compare lexicographically, and a proper prefix comes first.
unfoldable pub bytes_cmp : List ℕ → List ℕ → Ordering
bytes_cmp [] [] = eq
bytes_cmp [] (y ∷ ys) = lt
bytes_cmp (x ∷ xs) [] = gt
bytes_cmp (x ∷ xs) (y ∷ ys) = then_cmp (compare x y) (bytes_cmp xs ys)

bytes_cmp_refl : (a : List ℕ) → bytes_cmp a a ≡ eq
unfolding bytes_cmp
bytes_cmp_refl [] = refl
bytes_cmp_refl (x ∷ xs) = ground (arith, bytes_cmp_refl xs)

eq_of_bytes_cmp : (a b : List ℕ) → bytes_cmp a b ≡ eq → a ≡ b
unfolding bytes_cmp
eq_of_bytes_cmp [] [] h = refl
eq_of_bytes_cmp [] (y ∷ ys) h = cc
eq_of_bytes_cmp (x ∷ xs) [] h = cc
eq_of_bytes_cmp (x ∷ xs) (y ∷ ys) h = ground (arith, eq_of_bytes_cmp xs ys)

lt_of_bytes_gt : (a b : List ℕ) → bytes_cmp a b ≡ gt → bytes_cmp b a ≡ lt
unfolding bytes_cmp
lt_of_bytes_gt [] [] h = cc
lt_of_bytes_gt [] (y ∷ ys) h = cc
lt_of_bytes_gt (x ∷ xs) [] h = refl
lt_of_bytes_gt (x ∷ xs) (y ∷ ys) h = ground (arith, lt_of_bytes_gt xs ys)

gt_of_bytes_lt : (a b : List ℕ) → bytes_cmp a b ≡ lt → bytes_cmp b a ≡ gt
unfolding bytes_cmp
gt_of_bytes_lt [] [] h = cc
gt_of_bytes_lt [] (y ∷ ys) h = refl
gt_of_bytes_lt (x ∷ xs) [] h = cc
gt_of_bytes_lt (x ∷ xs) (y ∷ ys) h = ground (arith, gt_of_bytes_lt xs ys)

bytes_lt_trans : (a b c : List ℕ) → bytes_cmp a b ≡ lt → bytes_cmp b c ≡ lt → bytes_cmp a c ≡ lt
unfolding bytes_cmp
bytes_lt_trans [] [] c h k = cc
bytes_lt_trans [] (y ∷ ys) [] h k = cc
bytes_lt_trans [] (y ∷ ys) (z ∷ zs) h k = refl
bytes_lt_trans (x ∷ xs) [] c h k = cc
bytes_lt_trans (x ∷ xs) (y ∷ ys) [] h k = cc
bytes_lt_trans (x ∷ xs) (y ∷ ys) (z ∷ zs) h k = ground (arith, bytes_lt_trans xs ys zs)

pub bytes_cmp-IsTotal : IsTotal bytes_cmp
bytes_cmp-IsTotal = record {
  self_equal = bytes_cmp_refl;
  same_of_equal = eq_of_bytes_cmp;
  less_of_greater = lt_of_bytes_gt;
  greater_of_less = gt_of_bytes_lt;
  less_trans = bytes_lt_trans;
}

instance abbrev pub bytes_ord : Ord (List ℕ)
bytes_ord = record { cmp = bytes_cmp; total = bytes_cmp-IsTotal }

-- Tuples compare by their first parts, and by their second parts where those are equal.
module _ {ℓ κ} {A : Type ℓ} {B : Type κ} ⦃first : Ord A⦄ ⦃second : Ord B⦄ where
  abbrev pub pair_cmp : A × B → A × B → Ordering
  pair_cmp (x, y) (x', y') = then_cmp (first.cmp x x') (second.cmp y y')

  pair_mirror :
      (p q : A × B)
      → (pair_cmp p q ≡ gt → pair_cmp q p ≡ lt) × (pair_cmp p q ≡ lt → pair_cmp q p ≡ gt)
  pair_mirror (x, y) (x', y') = ground (
    arith,
    first.same_of_equal x x',
    first.less_of_greater x x',
    first.greater_of_less x x',
    second.less_of_greater y y',
    second.greater_of_less y y',
  )

  pair_same : (p q : A × B) → pair_cmp p q ≡ eq → p ≡ q
  pair_same (x, y) (x', y') = ground (arith, second.same_of_equal y y', first.same_of_equal x x')

  pair_trans : (p q r : A × B) → pair_cmp p q ≡ lt → pair_cmp q r ≡ lt → pair_cmp p r ≡ lt
  pair_trans (x, y) (x', y') (x'', y'') = ground (
    arith,
    first.same_of_equal x x',
    first.same_of_equal x' x'',
    first.less_trans x x' x'',
    second.less_trans y y' y'',
  )

  pub pair_cmp-IsTotal : IsTotal {K = A × B} pair_cmp
  pair_cmp-IsTotal = record {
    less_trans = pair_trans;
    less_of_greater = λ p q. (pair_mirror p q).0;
    greater_of_less = λ p q. (pair_mirror p q).1;
    same_of_equal = pair_same;
    self_equal = λ p. simp (first.self_equal, second.self_equal);
  }

  instance abbrev pub pair_ord : Ord (A × B)
  pair_ord = record { cmp = pair_cmp; total = pair_cmp-IsTotal }

-- What the byte order does to a common prefix.
pub bytes_cmp-append : (p a b : List ℕ) → bytes_cmp (p ++ a) (p ++ b) ≡ bytes_cmp a b
unfolding bytes_cmp
bytes_cmp-append [] a b = refl
bytes_cmp-append (x ∷ p) a b = ground (arith, bytes_cmp-append p a b)

nat_lt_trans : (x y z : ℕ) → compare x y ≡ lt → compare y z ≡ lt → compare x z ≡ lt
nat_lt_trans x y z h k = ground arith

pub compare-IsTotal : IsTotal {K = ℕ} compare
compare-IsTotal = record {
  less_trans = nat_lt_trans;
  less_of_greater = λ x y h. ground arith;
  greater_of_less = λ x y h. ground arith;
  same_of_equal = λ x y h. ground arith;
  self_equal = λ x. ground arith;
}

instance abbrev pub nat_ord : Ord ℕ
nat_ord = record { cmp = compare; total = compare-IsTotal }

module _ {ℓ} {K : Type ℓ} ⦃o : Ord K⦄ where
  pub same_of_is_eq : (x y : K) → is_eq (o.cmp x y) ≡ true → x ≡ y
  same_of_is_eq x y h = ground (arith, o.same_of_equal x y)

  pub less_of_le : (x y : K) → is_le (o.cmp x y) ≡ true → is_eq (o.cmp y x) ≡ false → o.cmp x y ≡ lt
  less_of_le x y h k = ground (arith, o.same_of_equal x y, o.self_equal x)
