-- ===== src/Lsm/Sstable/Handle/Runs.antt =====
-- crates/bkndb-storage-lsm/src/sstable: entries in ascending order, in the lists of the blocks.
use Prim.Native.Nat.Ordering.{lt}
use bkndb.Prelude.{
  ℕ, ◌≡◌, refl, ap, arith, List, [], ◌∷◌, ◌++◌, Bool, true, false, ◌||◌, none, All, ◌⊎◌, inl, inr,
  Bool-cases,
}
use bkndb.Prelude.Order.{bytes_cmp, bytes_ord, bytes_cmp-IsTotal, is_lt, is_le, is_eq}
use bkndb.Prelude.BTreeMap
use bkndb.Prelude.BTreeMap.{IsSorted, Above, get-Above}
use bkndb.Prelude.{or_else}
use bkndb.Lsm.Memtable.{Entry, LsmValue}
use bkndb.Lsm.Sstable.Block.{Entry}
use bkndb.Lsm.Sstable.Handle.{}
open bytes_cmp-IsTotal use {same_of_equal, self_equal, less_of_greater, less_trans, greater_of_less}

abbrev pub flatten : List (List Entry) → List Entry
flatten [] = []
flatten (es ∷ ess) = es ++ flatten ess

-- A test that every entry passes and the key does not shows that the key is not there.
pub get-of_failed_test :
    (test : List ℕ → Bool) (es : List Entry) (key : List ℕ)
    → All (λ e. test (e.0) ≡ true) es
    → test key ≡ false
    → BTreeMap.get es key ≡ none
unfolding BTreeMap.get
get-of_failed_test test [] key a h = refl
get-of_failed_test test ((k, v) ∷ es) key a h = elim (Bool-cases (is_eq (bytes_cmp key k))) [
  | inr e ↦ rw e (get-of_failed_test test es key a.1 h)
  | inl e ↦ cc (ap test (same_of_equal key k (ground arith)), a.0, h)
]

-- The first of two lists that has the key.
pub get-append :
    (xs ys : List Entry) (key : List ℕ)
    → BTreeMap.get (xs ++ ys) key ≡ or_else (BTreeMap.get xs key) (BTreeMap.get ys key)
unfolding BTreeMap.get or_else
get-append [] ys key = refl
get-append ((k, v) ∷ xs) ys key = elim (Bool-cases (is_eq (bytes_cmp key k))) [
  | inl e ↦ rw e
  | inr e ↦ rw e (get-append xs ys key)
]

pub Above-at :
    (j : List ℕ) (xs : List Entry) (k : List ℕ) (v : LsmValue) (ys : List Entry)
    → Above j (xs ++ (k, v) ∷ ys)
    → bytes_cmp j k ≡ lt
Above-at j [] k v ys a = a.0
Above-at j ((i, w) ∷ xs) k v ys a = Above-at j xs k v ys a.1

pub before-lt :
    (xs : List Entry) (k : List ℕ) (v : LsmValue) (ys : List Entry)
    → IsSorted (xs ++ (k, v) ∷ ys)
    → All (λ e. is_lt (bytes_cmp (e.0) k) ≡ true) xs
before-lt [] k v ys s = tt
before-lt ((i, w) ∷ xs) k v ys s = (ap is_lt (Above-at i xs k v ys s.0), before-lt xs k v ys s.1)

pub Above-left : (j : List ℕ) (xs ys : List Entry) → Above j (xs ++ ys) → Above j xs
Above-left j [] ys a = tt
Above-left j ((i, w) ∷ xs) ys a = (a.0, Above-left j xs ys a.1)

pub append-IsSorted_left : (xs ys : List Entry) → IsSorted (xs ++ ys) → IsSorted xs
append-IsSorted_left [] ys s = tt
append-IsSorted_left ((i, w) ∷ xs) ys s = (Above-left i xs ys s.0, append-IsSorted_left xs ys s.1)

pub append-IsSorted_right : (xs ys : List Entry) → IsSorted (xs ++ ys) → IsSorted ys
append-IsSorted_right [] ys s = s
append-IsSorted_right ((i, w) ∷ xs) ys s = append-IsSorted_right xs ys s.1

pub is_lt_of_le : (a b : List ℕ) → is_le (bytes_cmp a b) ≡ true → is_lt (bytes_cmp b a) ≡ false
is_lt_of_le a b h = ground (arith, greater_of_less b a)

pub lt_of_not_le : (a b : List ℕ) → is_le (bytes_cmp a b) ≡ false → bytes_cmp b a ≡ lt
lt_of_not_le a b h = ground (arith, less_of_greater a b)

abbrev pub FirstKey : List ℕ → List Entry → Type 0
FirstKey key [] = ⊥
FirstKey key (e ∷ es) = key ≡ e.0

pub or-cases : (a b : Bool) → (a || b) ≡ true → (a ≡ true) ⊎ (b ≡ true)
or-cases true b h = inl refl
or-cases false b h = inr h
