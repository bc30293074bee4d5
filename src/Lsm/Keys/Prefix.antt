-- ===== src/Lsm/Keys/Prefix.antt =====
-- crates/bkndb-storage-lsm/src/keys.rs: the bounds of a prefix scan.
use mathlib.Core.Option
use mathlib.Core.List.{reverse-cons, reverse-append}
use bkndb.Prelude.{ℕ, ◌+◌, ◌≡◌, refl, ap, List, [], ◌∷◌, ◌++◌, Option, none, some, reverse}
use bkndb.Prelude.{◌<◌, arith, inl, inr, Bool-cases, ◌==◌, if◌then◌else◌}
use bkndb.Prelude.Order.{bytes_cmp, bytes_ord}
use bkndb.Prelude.BTreeMap.{Bound, included, excluded, unbounded, in_bounds}
use bkndb.Prelude.Bytes.{bytes_cmp-nil, IsBytes, starts_with}
use bkndb.Lsm.Keys.{successor_back, prefix_upper_bound}

-- One step of the successor from the front.
front : ℕ → Option (List ℕ) → Option (List ℕ)
front x (some ys) = some (x ∷ ys)
front x none = if x == 0xff then none else some ((x + 1) ∷ [])

back : ℕ → Option (List ℕ) → Option (List ℕ)
back x (some ys) = some (ys ++ x ∷ [])
back x none = if x == 0xff then none else some ((x + 1) ∷ [])

successor_back-append :
    (r : List ℕ) (x : ℕ) → successor_back (r ++ x ∷ []) ≡ back x (successor_back r)
unfolding successor_back back
successor_back-append [] x = refl
successor_back-append (y ∷ r) x = ground (arith, successor_back-append r x)

map-back :
    (x : ℕ) (o : Option (List ℕ)) → Option.map reverse (back x o) ≡ front x (Option.map reverse o)
unfolding back front
map-back x (some ys) = ap some (reverse-append ys (x ∷ []))
map-back x none = ground arith

prefix_upper_bound-cons :
    (x : ℕ) (p : List ℕ) → prefix_upper_bound (x ∷ p) ≡ front x (prefix_upper_bound p)
unfolding prefix_upper_bound
prefix_upper_bound-cons x p =
    rw (reverse-cons x p, successor_back-append) (map-back x (successor_back (reverse p)))

abbrev pub end_of : Option (List ℕ) → Bound (List ℕ)
end_of (some b) = excluded b
end_of none = unbounded

-- The upper end of a prefix scan, as `table_scan_bounds` chooses it.
abbrev pub upper_end : List ℕ → Bound (List ℕ)
upper_end p = end_of (prefix_upper_bound p)

in_bounds-front :
    (x y : ℕ) (p k : List ℕ) (o : Option (List ℕ))
    → y < 256
    → in_bounds (included p) (end_of o) k ≡ starts_with p k
    → in_bounds (included (x ∷ p)) (end_of (front x o)) (y ∷ k) ≡ starts_with (x ∷ p) (y ∷ k)
unfolding in_bounds starts_with front bytes_cmp
in_bounds-front x y p k (some ys) h ih = ground arith
in_bounds-front x y p k none h ih = elim (Bool-cases (x == 0xff)) [
  | inl e ↦ rw e (ground arith)
  | inr e ↦ rw e (ground (arith, bytes_cmp-nil k))
]

-- The keys of bytes between a prefix and its `prefix_upper_bound`, or the end of the keyspace where
-- there is none, are those that start with the prefix.
pub in_bounds-prefix :
    (p k : List ℕ) → IsBytes k → in_bounds (included p) (upper_end p) k ≡ starts_with p k
in_bounds-prefix [] k h = unfold in_bounds starts_with prefix_upper_bound in rw (bytes_cmp-nil k)
in_bounds-prefix (x ∷ p) [] h = unfold in_bounds starts_with bytes_cmp in refl
in_bounds-prefix (x ∷ p) (y ∷ k) h =
    rw (prefix_upper_bound-cons x p)
      (in_bounds-front x y p k (prefix_upper_bound p) h.0 (in_bounds-prefix p k h.1))
