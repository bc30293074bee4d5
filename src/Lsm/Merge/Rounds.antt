-- ===== src/Lsm/Merge/Rounds.antt =====
-- crates/bkndb-storage-lsm/src/compaction.rs: the rounds of `next` on the state of given lists.
use mathlib.Core.Path.{subst}
use bkndb.Prelude.{
  ℕ, zero, suc, ◌+◌, ◌≤◌, ◌≡◌, ◌⊎◌, refl, sym, ap, ◌∙◌, arith, List, [], ◌∷◌, true, some, All,
  length, get_elem?, set, if◌then◌else◌, Bool-cases, inl, inr,
}
use bkndb.Prelude.Order.{
  bytes_cmp, bytes_ord, nat_ord, pair_ord, pair_cmp, is_eq, is_le, same_of_is_eq, less_of_le,
}
use bkndb.Prelude.Heap.{All-push, length-push, IsAscending}
use bkndb.Prelude.BTreeMap.{IsSorted, Above}
use bkndb.Lsm.Memtable.{Entry, LsmValue}
use bkndb.Lsm.Merge.{MergeIter, advance, taken, discard, consume, rounds, remaining}
use bkndb.Lsm.Merge.Drop.{AtLeast}
use bkndb.Lsm.Merge.Lists.{
  drops, drops-set, drops_absent, total, total-set, IsLeast, IsLeast-AtLeast, get_elem?-All,
  set-All, AtLeast-past, Above-AtLeast, first_of, first_of-least,
}
use bkndb.Lsm.Merge.Heads.{
  all_ok, tails, heap_of, state_of, get_elem?-heads_of, heap_of-IsAscending, heap_of-IsHead, IsHead,
  advance-taken,
}

pub List-cases {ℓ} :
    {A : Type ℓ} (xs : List A) → (xs ≡ []) ⊎ ((x : A) × (rest : List A) × (xs ≡ x ∷ rest))
List-cases [] = inl refl
List-cases (x ∷ xs) = inr (x, xs, refl)

heap_length :
    (n : ℕ) (ls : List (List Entry)) → remaining (tails ls) + length (heap_of n ls) ≡ total ls
unfolding remaining heap_of
heap_length n [] = omega arith
heap_length n ([] ∷ ls) = omega (arith, heap_length (suc n) ls)
heap_length n (((k, v) ∷ l) ∷ ls) =
    omega (arith, heap_length (suc n) ls, length-push (k, n) (heap_of (suc n) ls), length-all_ok l)
  where
    length-all_ok : (l : List Entry) → length (all_ok l) ≡ length l
    length-all_ok [] = refl
    length-all_ok (e ∷ l) = ap suc (length-all_ok l)

pub rounds-state_of : (ls : List (List Entry)) → rounds (state_of ls) ≡ total ls
unfolding state_of
rounds-state_of ls = heap_length 0 ls

-- With an empty heap every list is empty.
pub nothing_left :
    (b : List ℕ) (n : ℕ) (ls : List (List Entry)) → heap_of n ls ≡ [] → All (Above b) ls
unfolding heap_of
nothing_left b n [] h = tt
nothing_left b n ([] ∷ ls) h = (tt, nothing_left b (suc n) ls h)
nothing_left b n (((k, v) ∷ l) ∷ ls) h =
    absurd (omega (arith, ap length h, length-push (k, n) (heap_of (suc n) ls)))

pub no_entries : (b : List ℕ) (ls : List (List Entry)) → total ls ≤ 0 → All (Above b) ls
no_entries b [] h = tt
no_entries b ([] ∷ ls) h = (tt, no_entries b ls (omega (arith, h)))
no_entries b ((e ∷ l) ∷ ls) h = absurd (omega (arith, h))

heap-IsLeast :
    (key : List ℕ) (i n : ℕ) (ls : List (List Entry))
    → All (λ q. is_le (pair_cmp (key, i) q) ≡ true) (heap_of n ls)
    → IsLeast key i n ls
unfolding heap_of
heap-IsLeast key i n [] a = tt
heap-IsLeast key i n ([] ∷ ls) a = heap-IsLeast key i (suc n) ls a
heap-IsLeast key i n (((k, v) ∷ l) ∷ ls) a =
    let b = All-push (λ q. is_le (pair_cmp (key, i) q) ≡ true) (k, n) (heap_of (suc n) ls) a in
    (b.0, heap-IsLeast key i (suc n) ls b.1)

pub first-IsLeast :
    (ls : List (List Entry)) (key : List ℕ) (i : ℕ) (rest : List (List ℕ × ℕ))
    → heap_of 0 ls ≡ (key, i) ∷ rest
    → IsLeast key i 0 ls
first-IsLeast ls key i rest h =
    let s : IsAscending ((key, i) ∷ rest) = subst IsAscending h (heap_of-IsAscending 0 ls) in
    let all : All (λ q. is_le (pair_cmp (key, i) q) ≡ true) ((key, i) ∷ rest) = (self, s.0) in
    heap-IsLeast key i 0 ls (subst (All (λ q. is_le (pair_cmp (key, i) q) ≡ true)) (sym h) all)
  where
    self : is_le (pair_cmp (key, i) (key, i)) ≡ true
    self = ap is_le (pair_ord.self_equal (key, i))

-- The entry that the first element of the heap stands for.
pub first_entry :
    (ls : List (List Entry)) (key : List ℕ) (i : ℕ) (rest : List (List ℕ × ℕ))
    → heap_of 0 ls ≡ (key, i) ∷ rest
    → (v : LsmValue) × (r : List Entry) × (get_elem? ls i ≡ some ((key, v) ∷ r))
first_entry ls key i rest h =
    let a : All (IsHead 0 ls) ((key, i) ∷ rest) =
      subst (All (IsHead 0 ls)) h (heap_of-IsHead 0 ls) in
    let e : i ≡ a.0.0 = omega (arith, a.0.3) in (a.0.1, a.0.2, ap (get_elem? ls) e ∙ a.0.4)

discard-first :
    (fuel : ℕ) (key k : List ℕ) (j : ℕ) (rest : List (List ℕ × ℕ)) (m : MergeIter)
    → m.heap ≡ (k, j) ∷ rest
    → discard (suc fuel) key m
      ≡ (if is_eq (bytes_cmp k key) then discard fuel key (advance (taken m rest j) j) else m)
unfolding discard
discard-first fuel key k j rest m h = rw h refl

discard-empty : (fuel : ℕ) (key : List ℕ) (m : MergeIter) → m.heap ≡ [] → discard fuel key m ≡ m
unfolding discard
discard-empty zero key m h = refl
discard-empty (suc fuel) key m h = rw h refl

-- What a round finds and leaves.
module _ (ls : List (List Entry)) (k : List ℕ) (j : ℕ) (rest : List (List ℕ × ℕ))
    (s : All IsSorted ls) (h : heap_of 0 ls ≡ (k, j) ∷ rest) where
  pub parked : LsmValue
  parked = (first_entry ls k j rest h).0

  pub rest_of : List Entry
  rest_of = (first_entry ls k j rest h).1

  pub entry_at : get_elem? ls j ≡ some ((k, parked) ∷ rest_of)
  unfolding parked rest_of
  entry_at = (first_entry ls k j rest h).2

  pub entry-IsSorted : IsSorted ((k, parked) ∷ rest_of)
  entry-IsSorted = get_elem?-All IsSorted ls j s entry_at

  pub first-AtLeast : All (AtLeast k) ls
  first-AtLeast = IsLeast-AtLeast k j 0 ls (first-IsLeast ls k j rest h)

  pub first-value : first_of ls k ≡ some parked
  first-value =
      first_of-least k j 0 ls j parked rest_of (omega arith) s (first-IsLeast ls k j rest h)
        entry_at

  pub fewer : suc (total (set ls j rest_of)) ≡ total ls
  fewer = total-set ls j k parked rest_of entry_at

pub discard-state_of :
    (fuel : ℕ) (key : List ℕ) (ls : List (List Entry))
    → total ls ≤ fuel
    → All IsSorted ls
    → All (AtLeast key) ls
    → discard fuel key (state_of ls) ≡ state_of (drops key ls)
discard-state_of zero key ls b s a =
    unfold discard in ap state_of (sym (drops_absent key ls (no_entries key ls b)))
discard-state_of (suc fuel) key ls b s a = elim (List-cases (heap_of 0 ls)) [
  | inl h ↦
      discard-empty (suc fuel) key (state_of ls) (unfold state_of in h)
      ∙ ap state_of (sym (drops_absent key ls (nothing_left key 0 ls h)))
  | inr ((k, j), rest, h) ↦ elim (Bool-cases (is_eq (bytes_cmp k key))) [
    | inl e ↦
        let p : k ≡ key = same_of_is_eq k key e in
        let r : List Entry = rest_of ls k j rest s h in
        let c : IsSorted ((k, parked ls k j rest s h) ∷ r) = entry-IsSorted ls k j rest s h in
        let past : Above key r = subst (λ x. Above x r) p c.0 in
        discard-first fuel key k j rest (state_of ls) (unfold state_of in h)
        ∙ rw e (
            ap (discard fuel key)
              (advance-taken ls j k (parked ls k j rest s h) r rest (entry_at ls k j rest s h) h))
        ∙ discard-state_of fuel key (set ls j r) (omega (arith, b, fewer ls k j rest s h))
            (set-All IsSorted ls j r s c.1)
            (set-All (AtLeast key) ls j r a (AtLeast-past key r past))
        ∙ ap state_of (
            drops-set key ls j (parked ls k j rest s h) r
              (subst (λ x. get_elem? ls j ≡ some ((x, parked ls k j rest s h) ∷ r)) p
                (entry_at ls k j rest s h))
              past)
    | inr e ↦
        let le : is_le (bytes_cmp key k) ≡ true =
          get_elem?-All (AtLeast key) ls j a (entry_at ls k j rest s h) in
        discard-first fuel key k j rest (state_of ls) (unfold state_of in h)
        ∙ rw e (
            ap state_of (
              sym (
                drops_absent key ls (
                  Above-AtLeast key k ls (less_of_le key k le e) s
                    (first-AtLeast ls k j rest s h)))))
  ]
]

consume_parked :
    (m m' : MergeIter) (key : List ℕ) (i : ℕ) (rest : List (List ℕ × ℕ)) (v : LsmValue)
    → get_elem? m.heads i ≡ some (some v)
    → advance (taken m rest i) i ≡ m'
    → consume m key i rest ≡ (some v, discard (rounds m') key m')
unfolding consume
consume_parked m m' key i rest v h e = rw (e, h) refl

-- A round yields what the newest list says of the least key, and leaves the lists without it.
pub consume-state_of :
    (ls : List (List Entry)) (k : List ℕ) (j : ℕ) (rest : List (List ℕ × ℕ))
    → All IsSorted ls
    → heap_of 0 ls ≡ (k, j) ∷ rest
    → (v : LsmValue) × (first_of ls k ≡ some v)
      × (consume (state_of ls) k j rest ≡ (some v, state_of (drops k ls)))
consume-state_of ls k j rest s h =
    let v : LsmValue = parked ls k j rest s h in
    let r : List Entry = rest_of ls k j rest s h in
    let at : get_elem? ls j ≡ some ((k, v) ∷ r) = entry_at ls k j rest s h in
    let c : IsSorted ((k, v) ∷ r) = entry-IsSorted ls k j rest s h in
    let fuel : rounds (state_of (set ls j r)) ≡ total (set ls j r) = rounds-state_of (set ls j r) in
    let left : discard (rounds (state_of (set ls j r))) k (state_of (set ls j r))
        ≡ state_of (drops k ls) =
      discard-state_of (rounds (state_of (set ls j r))) k (set ls j r) (omega (arith, fuel))
        (set-All IsSorted ls j r s c.1)
        (set-All (AtLeast k) ls j r (first-AtLeast ls k j rest s h) (AtLeast-past k r c.0))
      ∙ ap state_of (drops-set k ls j v r at c.0) in
    (
      v,
      first-value ls k j rest s h,
      consume_parked (state_of ls) (state_of (set ls j r)) k j rest v
            (unfold state_of in get_elem?-heads_of ls j at) (advance-taken ls j k v r rest at h)
          ∙ ap (λ m. (some v, m)) left,
    )
