-- ===== src/Lsm/Merge/Start.antt =====
-- crates/bkndb-storage-lsm/src/compaction.rs: `new` on sources without errors, and the whole merge.
use bkndb.Prelude.{
  ℕ, suc, ◌+◌, ◌≤◌, ◌<◌, ◌≡◌, refl, sym, ap, ◌∙◌, arith, List, [], ◌∷◌, ◌++◌, append_assoc, Option,
  none, some, All, length, set,
}
use bkndb.Prelude.Order.{bytes_ord, nat_ord, pair_ord}
use bkndb.Prelude.Slices.{get_elem?-append}
use bkndb.Prelude.Heap.{push, push_comm}
use bkndb.Prelude.BTreeMap.{IsSorted}
use bkndb.Error.{ok}
use bkndb.Lsm.Memtable.{Entry, LsmValue}
use bkndb.Lsm.Merge.{EntryIter, MergeIter, advance, advance_from, pull, new, no_heads, collect}
use bkndb.Lsm.Merge.Lists.{total}
use bkndb.Lsm.Merge.Heads.{
  all_ok, tail_of, head_of, tails, heads_of, push_head, heap_of, state_of, other_source, same_state,
}
use bkndb.Lsm.Merge.Collect.{Pairs, IsMerged, collect-state_of}

-- Sources that yield the given entries and no error.
abbrev pub sources_of : List (List Entry) → List EntryIter
sources_of [] = []
sources_of (l ∷ ls) = all_ok l ∷ sources_of ls

module _ {ℓ} {A : Type ℓ} where
  pub set-append :
      (xs : List A) (x y : A) (ys : List A) → set (xs ++ x ∷ ys) (length xs) y ≡ xs ++ y ∷ ys
  set-append [] x y ys = refl
  set-append (z ∷ xs) x y ys = ap (◌∷◌ z) (set-append xs x y ys)

  split_at : (xs : List A) (x : A) (ys : List A) → xs ++ x ∷ ys ≡ (xs ++ x ∷ []) ++ ys
  split_at xs x ys = sym (append_assoc xs (x ∷ []) ys)

  length-snoc : (xs : List A) (x : A) → length (xs ++ x ∷ []) ≡ suc (length xs)
  length-snoc [] x = refl
  length-snoc (z ∷ xs) x = ap suc (length-snoc xs x)

abbrev pushes : ℕ → List (List Entry) → List (List ℕ × ℕ) → List (List ℕ × ℕ)
pushes n [] h = h
pushes n (l ∷ ls) h = pushes (suc n) ls (push_head l n h)

abbrev state : List EntryIter → List (Option LsmValue) → List (List ℕ × ℕ) → MergeIter
state sources heads heap = record { sources = sources; heads = heads; heap = heap; error = none }

advance-next :
    (l : List Entry) (pre rest : List EntryIter) (hpre hrest : List (Option LsmValue))
    (h : List (List ℕ × ℕ)) (n : ℕ)
    → length pre ≡ n
    → length hpre ≡ n
    → advance (state (pre ++ all_ok l ∷ rest) (hpre ++ none ∷ hrest) h) n
      ≡ state (pre ++ all_ok (tail_of l) ∷ rest) (hpre ++ head_of l ∷ hrest) (push_head l n h)
unfolding advance pull
advance-next [] pre rest hpre hrest h n p q =
    rw (← p) (rw (get_elem?-append pre (all_ok []) rest (length pre) refl, advance) refl)
advance-next ((k, v) ∷ l) pre rest hpre hrest h n p q = rw (← p) (
    rw (get_elem?-append pre (all_ok ((k, v) ∷ l)) rest (length pre) refl, advance)
      (same_state _ _ _ _ _ _ (set-append pre (all_ok ((k, v) ∷ l)) (all_ok l) rest)
        (ap (λ i. set (hpre ++ none ∷ hrest) i (some v)) (p ∙ sym q)
          ∙ set-append hpre none (some v) hrest)
        refl))

advance_from-state :
    (ls : List (List Entry)) (pre : List EntryIter) (hpre : List (Option LsmValue))
    (h : List (List ℕ × ℕ)) (n : ℕ)
    → length pre ≡ n
    → length hpre ≡ n
    → advance_from
        (length (sources_of ls))
        n
        (state (pre ++ sources_of ls) (hpre ++ no_heads (sources_of ls)) h)
      ≡ state (pre ++ tails ls) (hpre ++ heads_of ls) (pushes n ls h)
unfolding advance_from
advance_from-state [] pre hpre h n p q = refl
advance_from-state (l ∷ ls) pre hpre h n p q =
    let e : n + 1 ≡ suc n = omega arith in
    let step = advance-next l pre (sources_of ls) hpre (no_heads (sources_of ls)) h n p q in
    ap (advance_from (length (sources_of ls)) (n + 1)) step
    ∙ rw
        (
          e,
          split_at pre (all_ok (tail_of l)) (sources_of ls),
          split_at hpre (head_of l) (no_heads (sources_of ls)),
          split_at pre (all_ok (tail_of l)) (tails ls),
          split_at hpre (head_of l) (heads_of ls),
        )
        (advance_from-state ls (pre ++ all_ok (tail_of l) ∷ []) (hpre ++ head_of l ∷ [])
          (push_head l n h) (suc n) (length-snoc pre (all_ok (tail_of l)) ∙ ap suc p)
          (length-snoc hpre (head_of l) ∙ ap suc q))

pushes-push :
    (n m : ℕ) (k : List ℕ) (ls : List (List Entry)) (h : List (List ℕ × ℕ))
    → m < n
    → pushes n ls (push (k, m) h) ≡ push (k, m) (pushes n ls h)
pushes-push n m k [] h b = refl
pushes-push n m k ([] ∷ ls) h b = pushes-push (suc n) m k ls h (omega (arith, b))
pushes-push n m k (((j, v) ∷ l) ∷ ls) h b =
    ap (pushes (suc n) ls) (push_comm (j, n) (k, m) h (other_source j k n m (omega (arith, b))))
    ∙ pushes-push (suc n) m k ls (push (j, n) h) (omega (arith, b))

pushes-heap_of : (n : ℕ) (ls : List (List Entry)) → pushes n ls [] ≡ heap_of n ls
unfolding heap_of
pushes-heap_of n [] = refl
pushes-heap_of n ([] ∷ ls) = pushes-heap_of (suc n) ls
pushes-heap_of n (((k, v) ∷ l) ∷ ls) =
    pushes-push (suc n) n k ls [] (omega arith) ∙ ap (push (k, n)) (pushes-heap_of (suc n) ls)

pub new-state_of : (ls : List (List Entry)) → new (sources_of ls) ≡ state_of ls
unfolding new state_of
new-state_of ls =
    advance_from-state ls [] [] [] 0 refl refl
    ∙ ap (state (tails ls) (heads_of ls)) (pushes-heap_of 0 ls)

-- The merge of ascending sources without errors ends, given a round for every entry, with ascending
-- keys, and what it yields for a key is what the newest source that has the key says of it: its
-- value, or nothing if that is a tombstone.
pub merge_lem :
    (ls : List (List Entry)) (fuel : ℕ)
    → total ls ≤ fuel
    → All IsSorted ls
    → (out : Pairs) × (collect fuel (new (sources_of ls)) ≡ ok out) × IsMerged ls out
merge_lem ls fuel b s =
    let (out, c, m) = collect-state_of fuel ls b s in
    (out, ap (collect fuel) (new-state_of ls) ∙ c, m)
