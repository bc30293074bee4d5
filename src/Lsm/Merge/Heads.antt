-- ===== src/Lsm/Merge/Heads.antt =====
-- crates/bkndb-storage-lsm/src/compaction.rs: the state of a merge as a function of the lists that
-- its sources still have to deliver, the first entry of each of them parked.
use Prim.Native.Nat.Ordering.{eq}
use bkndb.Prelude.{
  ℕ, zero, suc, ◌+◌, ◌≡◌, ◌≢◌, refl, sym, ap, ◌∙◌, arith, List, [], ◌∷◌, Option, none, some, All,
  get_elem?, set,
}
use bkndb.Prelude.Order.{bytes_ord, nat_ord, pair_ord, pair_cmp}
use bkndb.Prelude.Heap.{push, push_comm, pop-push, push-All, push-IsAscending, IsAscending}
use bkndb.Error.{ok}
use bkndb.Lsm.Memtable.{Entry, LsmValue}
use bkndb.Lsm.Merge.{EntryIter, MergeIter, pull, advance, taken}

abbrev pub all_ok : List Entry → EntryIter
all_ok [] = []
all_ok (e ∷ es) = ok e ∷ all_ok es

abbrev pub tail_of : List Entry → List Entry
tail_of [] = []
tail_of (e ∷ es) = es

abbrev pub head_of : List Entry → Option LsmValue
head_of [] = none
head_of ((k, v) ∷ es) = some v

abbrev pub tails : List (List Entry) → List EntryIter
tails [] = []
tails (l ∷ ls) = all_ok (tail_of l) ∷ tails ls

abbrev pub heads_of : List (List Entry) → List (Option LsmValue)
heads_of [] = []
heads_of (l ∷ ls) = head_of l ∷ heads_of ls

abbrev pub push_head : List Entry → ℕ → List (List ℕ × ℕ) → List (List ℕ × ℕ)
push_head [] n h = h
push_head ((k, v) ∷ es) n h = push (k, n) h

unfoldable pub heap_of : ℕ → List (List Entry) → List (List ℕ × ℕ)
heap_of n [] = []
heap_of n (l ∷ ls) = push_head l n (heap_of (suc n) ls)

unfoldable pub state_of : List (List Entry) → MergeIter
state_of ls = record { sources = tails ls; heads = heads_of ls; heap = heap_of 0 ls; error = none }

tails-set :
    (ls : List (List Entry)) (i : ℕ) (l : List Entry)
    → tails (set ls i l) ≡ set (tails ls) i (all_ok (tail_of l))
tails-set [] i l = refl
tails-set (x ∷ ls) zero l = refl
tails-set (x ∷ ls) (suc i) l = ap (◌∷◌ (all_ok (tail_of x))) (tails-set ls i l)

heads_of-set :
    (ls : List (List Entry)) (i : ℕ) (l : List Entry)
    → heads_of (set ls i l) ≡ set (heads_of ls) i (head_of l)
heads_of-set [] i l = refl
heads_of-set (x ∷ ls) zero l = refl
heads_of-set (x ∷ ls) (suc i) l = ap (◌∷◌ (head_of x)) (heads_of-set ls i l)

get_elem?-tails :
    (ls : List (List Entry)) (i : ℕ) {l : List Entry}
    → get_elem? ls i ≡ some l
    → get_elem? (tails ls) i ≡ some (all_ok (tail_of l))
get_elem?-tails [] i e = cc
get_elem?-tails (x ∷ ls) zero {l} e = (let p : x ≡ l = cc in ap (λ y. some (all_ok (tail_of y))) p)
get_elem?-tails (x ∷ ls) (suc i) e = get_elem?-tails ls i e

pub get_elem?-heads_of :
    (ls : List (List Entry)) (i : ℕ) {l : List Entry}
    → get_elem? ls i ≡ some l
    → get_elem? (heads_of ls) i ≡ some (head_of l)
get_elem?-heads_of [] i e = cc
get_elem?-heads_of (x ∷ ls) zero {l} e = (let p : x ≡ l = cc in ap (λ y. some (head_of y)) p)
get_elem?-heads_of (x ∷ ls) (suc i) e = get_elem?-heads_of ls i e

module _ {ℓ} {A : Type ℓ} where
  set-set : (xs : List A) (i : ℕ) (a b : A) → set (set xs i a) i b ≡ set xs i b
  set-set [] i a b = refl
  set-set (x ∷ xs) zero a b = refl
  set-set (x ∷ xs) (suc i) a b = ap (◌∷◌ x) (set-set xs i a b)

  set-get_elem? : (xs : List A) (i : ℕ) (a : A) → get_elem? xs i ≡ some a → set xs i a ≡ xs
  set-get_elem? [] i a e = refl
  set-get_elem? (x ∷ xs) zero a e = (let p : x ≡ a = cc in ap (λ y. y ∷ xs) (sym p))
  set-get_elem? (x ∷ xs) (suc i) a e = ap (◌∷◌ x) (set-get_elem? xs i a e)

  get_elem?-set :
      (xs : List A) (i : ℕ) (a : A) {b : A}
      → get_elem? xs i ≡ some b
      → get_elem? (set xs i a) i ≡ some a
  get_elem?-set [] i a e = cc
  get_elem?-set (x ∷ xs) zero a e = refl
  get_elem?-set (x ∷ xs) (suc i) a e = get_elem?-set xs i a e

-- Pairs of different sources differ.
pub other_source : (k j : List ℕ) (n m : ℕ) → n ≢ m → pair_cmp (k, n) (j, m) ≢ eq
other_source k j n m d e = d (ap (λ (p : List ℕ × ℕ). p.1) (pair_ord.same_of_equal (k, n) (j, m) e))

pub heap_of-set :
    (n : ℕ) (ls : List (List Entry)) (d : ℕ) (k : List ℕ) (v : LsmValue) (r : List Entry)
    → get_elem? ls d ≡ some ((k, v) ∷ r)
    → heap_of n ls ≡ push (k, n + d) (heap_of n (set ls d []))
unfolding heap_of
heap_of-set n [] d k v r e = cc
heap_of-set n (l ∷ ls) zero k v r e =
    let p : l ≡ (k, v) ∷ r = cc in let q : n + 0 ≡ n = omega arith in rw (p, q)
heap_of-set n ([] ∷ ls) (suc d) k v r e =
    let q : n + suc d ≡ suc n + d = omega arith in rw q (heap_of-set (suc n) ls d k v r e)
heap_of-set n (((j, w) ∷ l) ∷ ls) (suc d) k v r e =
    let q : n + suc d ≡ suc n + d = omega arith in
    rw q (
      ap (push (j, n)) (heap_of-set (suc n) ls d k v r e)
      ∙ push_comm (j, n) (k, suc n + d) (heap_of (suc n) (set ls d []))
          (other_source j k n (suc n + d) (omega arith)))

pub heap_of-IsAscending : (n : ℕ) (ls : List (List Entry)) → IsAscending (heap_of n ls)
unfolding heap_of
heap_of-IsAscending n [] = tt
heap_of-IsAscending n ([] ∷ ls) = heap_of-IsAscending (suc n) ls
heap_of-IsAscending n (((j, w) ∷ l) ∷ ls) =
    push-IsAscending (j, n) (heap_of (suc n) ls) (heap_of-IsAscending (suc n) ls)

-- What stands in the heap is the first key of a list.
abbrev pub IsHead : ℕ → List (List Entry) → List ℕ × ℕ → Type 0
IsHead n ls p =
    (d : ℕ) × (v : LsmValue) × (r : List Entry) × (p.1 ≡ n + d)
    × (get_elem? ls d ≡ some ((p.0, v) ∷ r))

shift_heads :
    (n : ℕ) (l : List Entry) (ls : List (List Entry)) (h : List (List ℕ × ℕ))
    → All (IsHead (suc n) ls) h
    → All (IsHead n (l ∷ ls)) h
shift_heads n l ls [] a = tt
shift_heads n l ls (p ∷ h) a =
    ((suc a.0.0, a.0.1, a.0.2, omega (arith, a.0.3), a.0.4), shift_heads n l ls h a.1)

pub heap_of-IsHead : (n : ℕ) (ls : List (List Entry)) → All (IsHead n ls) (heap_of n ls)
unfolding heap_of
heap_of-IsHead n [] = tt
heap_of-IsHead n ([] ∷ ls) = shift_heads n [] ls (heap_of (suc n) ls) (heap_of-IsHead (suc n) ls)
heap_of-IsHead n (((j, w) ∷ l) ∷ ls) =
    push-All (IsHead n (((j, w) ∷ l) ∷ ls)) (j, n) (heap_of (suc n) ls) (0, w, l, omega arith, refl)
      (shift_heads n ((j, w) ∷ l) ls (heap_of (suc n) ls) (heap_of-IsHead (suc n) ls))

pub same_state :
    (s s' : List EntryIter) (h h' : List (Option LsmValue)) (p p' : List (List ℕ × ℕ))
    → s ≡ s'
    → h ≡ h'
    → p ≡ p'
    → ◌≡◌ {A = MergeIter}
        (record { sources = s; heads = h; heap = p; error = none })
        (record { sources = s'; heads = h'; heap = p'; error = none })
same_state s s' h h' p p' a b c = cc

-- Once the first element of the heap is taken, advancing its source gives the state of the lists
-- without that entry.
pub advance-taken :
    (ls : List (List Entry)) (i : ℕ) (k : List ℕ) (v : LsmValue) (r : List Entry)
    (rest : List (List ℕ × ℕ))
    → get_elem? ls i ≡ some ((k, v) ∷ r)
    → heap_of 0 ls ≡ (k, i) ∷ rest
    → advance (taken (state_of ls) rest i) i ≡ state_of (set ls i r)
unfolding advance pull state_of
advance-taken ls i k v r rest at first = rw (get_elem?-tails ls i at, advance) (go r at)
  where
    rest-eq : (r : List Entry) → get_elem? ls i ≡ some ((k, v) ∷ r) → rest ≡ heap_of 0 (set ls i [])
    rest-eq r at =
        let q : 0 + i ≡ i = omega arith in
        let pushed : heap_of 0 ls ≡ push (k, i) (heap_of 0 (set ls i [])) =
          rw q at (heap_of-set 0 ls i k v r at) in
        sym (pop-push (k, i) (heap_of 0 (set ls i [])) rest (sym pushed ∙ first))

    go :
        (r : List Entry)
        → get_elem? ls i ≡ some ((k, v) ∷ r)
        → pull
            (record {
              sources = tails ls;
              heads = set (heads_of ls) i none;
              heap = rest;
              error = none;
            })
            i
            (all_ok r)
          ≡ record {
            sources = tails (set ls i r);
            heads = heads_of (set ls i r);
            heap = heap_of 0 (set ls i r);
            error = none;
          }
    go [] at =
        same_state _ _ _ _ _ _
          (sym (tails-set ls i [] ∙ set-get_elem? (tails ls) i [] (get_elem?-tails ls i at)))
          (sym (heads_of-set ls i [])) (rest-eq [] at)
    go ((k', v') ∷ r') at =
        same_state _ _ _ _ _ _ (sym (tails-set ls i ((k', v') ∷ r')))
          (set-set (heads_of ls) i none (some v') ∙ sym (heads_of-set ls i ((k', v') ∷ r')))
          (ap (push (k', i)) (rest-eq ((k', v') ∷ r') at)
            ∙ sym (heap ∙ ap (λ l. push (k', i) (heap_of 0 l)) (set-set ls i ((k', v') ∷ r') [])))
      where
        heap :
            heap_of 0 (set ls i ((k', v') ∷ r'))
            ≡ push (k', i) (heap_of 0 (set (set ls i ((k', v') ∷ r')) i []))
        heap =
            let q : 0 + i ≡ i = omega arith in
            rw q at (
              heap_of-set 0 (set ls i ((k', v') ∷ r')) i k' v' r'
                (get_elem?-set ls i ((k', v') ∷ r') at))
