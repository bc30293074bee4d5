-- ===== src/Relational/Codec/Bounds/Delimited.antt =====
-- crates/bkndb-core/src/relational/codec.rs: the keys of one kind tell where they end, so a key with
-- something behind it compares as the key does.
use Prim.Native.Nat.Ordering.{lt, eq}
use bkndb.Prelude.{
  ℕ, ◌≡◌, refl, sym, ap, ◌∙◌, arith, List, [], ◌∷◌, ◌++◌, append-nil, true, false, ◌&&◌, length,
  drop, inl, inr, Bool-cases, and_right, Option, none, some, reverse,
}
use bkndb.Prelude.Order.{bytes_cmp, bytes_ord, bytes_cmp-IsTotal, then_cmp, is_le, is_eq}
use bkndb.Prelude.BTreeMap.{below_upper, in_bounds}
use bkndb.Prelude.Bytes.{
  IsBytes, starts_with, starts_with-append, append-drop_of_starts_with, bytes_cmp-nil,
}
use bkndb.Value.{contains_nul}
use mathlib.Core.Option
use bkndb.Lsm.Keys
use bkndb.Lsm.Keys.{successor_back}
use bkndb.Lsm.Keys.Prefix.{end_of, upper_end, in_bounds-prefix}
use bkndb.Relational.Codec.Bounds.{pop_loop, prefix_upper_bound, to_bound}

-- Whatever follows the two keys, they decide the order unless they are equal.
abbrev pub Delimited : List ℕ → List ℕ → Type 0
Delimited j k =
    (a b : List ℕ) → bytes_cmp (j ++ a) (k ++ b) ≡ then_cmp (bytes_cmp j k) (bytes_cmp a b)

pub terminated-Delimited :
    (s t : List ℕ)
    → contains_nul s ≡ false
    → contains_nul t ≡ false
    → Delimited (s ++ 0 ∷ []) (t ++ 0 ∷ [])
unfolding contains_nul bytes_cmp
terminated-Delimited [] [] h k a b = refl
terminated-Delimited [] (y ∷ t) h k a b = ground arith
terminated-Delimited (x ∷ s) [] h k a b = ground arith
terminated-Delimited (x ∷ s) (y ∷ t) h k a b =
    ground (arith, terminated-Delimited s t (ground arith) (ground arith) a b)

module _ (j k : List ℕ) (delimited : Delimited j k) (p : List ℕ) where
  pub is_le-append : is_le (bytes_cmp j (k ++ p)) ≡ is_le (bytes_cmp j k)
  is_le-append =
      let e : bytes_cmp j (k ++ p) ≡ then_cmp (bytes_cmp j k) (bytes_cmp [] p) =
        ap (λ i. bytes_cmp i (k ++ p)) (sym (append-nil j)) ∙ delimited [] p in
      rw e (ground (arith, bytes_cmp-nil p))

  pub starts_with-Delimited : starts_with j (k ++ p) ≡ is_eq (bytes_cmp j k)
  starts_with-Delimited = elim (Bool-cases (starts_with j (k ++ p))) [
    | inl own ↦ own ∙ sym (same own)
    | inr other ↦
        other
        ∙ sym
            (elim (Bool-cases (is_eq (bytes_cmp j k))) [ inr e ↦ e | inl e ↦ cc (other, equal e) ])
  ]
    where
      same : starts_with j (k ++ p) ≡ true → is_eq (bytes_cmp j k) ≡ true
      same own =
          let d = drop (length j) (k ++ p) in
          let e : bytes_cmp (j ++ d) (k ++ p) ≡ eq =
            ap (λ x. bytes_cmp x (k ++ p)) (sym (append-drop_of_starts_with j (k ++ p) own))
            ∙ bytes_cmp-IsTotal.self_equal (k ++ p) in
          ground (arith, delimited d p)

      equal : is_eq (bytes_cmp j k) ≡ true → starts_with j (k ++ p) ≡ true
      equal e =
          let q : j ≡ k = bytes_cmp-IsTotal.same_of_equal j k (ground arith) in
          ap (λ i. starts_with i (k ++ p)) q ∙ starts_with-append k p

-- This is the function of the storage engine, so what is proved of that one holds here.
pop_loop-eq : (r : List ℕ) → pop_loop r ≡ successor_back r
unfolding pop_loop successor_back
pop_loop-eq [] = refl
pop_loop-eq (last ∷ out) = rw (pop_loop-eq out)

prefix_upper_bound-eq : (j : List ℕ) → prefix_upper_bound j ≡ Keys.prefix_upper_bound j
unfolding prefix_upper_bound Keys.prefix_upper_bound
prefix_upper_bound-eq j = ap (Option.map reverse) (pop_loop-eq (reverse j))

to_bound-end_of : (o : Option (List ℕ)) → to_bound o ≡ end_of o
to_bound-end_of none = refl
to_bound-end_of (some b) = refl

pub prefix_end :
    (j k : List ℕ)
    → IsBytes k
    → (is_le (bytes_cmp j k) && below_upper (to_bound (prefix_upper_bound j)) k) ≡ starts_with j k
prefix_end j k h =
    let e : to_bound (prefix_upper_bound j) ≡ upper_end j =
      ap to_bound (prefix_upper_bound-eq j) ∙ to_bound-end_of (Keys.prefix_upper_bound j) in
    rw e (unfold in_bounds in in_bounds-prefix j k h)

-- The upper end of a prefix lies above everything that is below the prefix.
pub below-to_bound :
    (j k : List ℕ)
    → IsBytes j
    → bytes_cmp k j ≡ lt
    → below_upper (to_bound (prefix_upper_bound j)) k ≡ true
below-to_bound j k h less = go (prefix_upper_bound j) own
  where
    own : below_upper (to_bound (prefix_upper_bound j)) j ≡ true
    own =
        let self : starts_with j j ≡ true =
          ap (starts_with j) (sym (append-nil j)) ∙ starts_with-append j [] in
        and_right (is_le (bytes_cmp j j)) _ (prefix_end j j h ∙ self)

    go :
        (o : Option (List ℕ))
        → below_upper (to_bound o) j ≡ true
        → below_upper (to_bound o) k ≡ true
    go none above = refl
    go (some b) above = ground (arith, bytes_cmp-IsTotal.less_trans k j b)
