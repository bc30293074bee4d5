-- ===== src/Lsm/Merge/Collect.antt =====
-- crates/bkndb-storage-lsm/src/compaction.rs: everything that a merge yields.
use mathlib.Core.Path.{subst}
use Prim.Native.Nat.Ordering.{lt}
use bkndb.Prelude.{
  ℕ, zero, suc, ◌≤◌, ◌≡◌, refl, sym, ap, ◌∙◌, arith, List, [], ◌∷◌, Option, none, some, All, set,
  if◌then◌else◌, Bool-cases, inl, inr,
}
use bkndb.Prelude.Order.{bytes_cmp, bytes_ord, nat_ord, pair_ord, is_eq, same_of_is_eq}
use bkndb.Prelude.BTreeMap
use bkndb.Prelude.BTreeMap.{BTreeMap, IsSorted, Above}
use bkndb.Error.{BknError, Result, ok, err}
use bkndb.Lsm.Memtable.{Entry, LsmValue, value, tombstone, live}
use bkndb.Lsm.Merge.{MergeIter, consume, collect}
use bkndb.Lsm.Merge.Drop.{AtLeast, get_past}
use bkndb.Lsm.Merge.Lists.{
  drops, drops-IsSorted, drops-Above, drops-past, total, total-drops, drops-set, first_of,
  first_of-drops, first_of_past, get_elem?-All,
}
use bkndb.Lsm.Merge.Heads.{heap_of, state_of}
use bkndb.Lsm.Merge.Rounds.{
  List-cases, nothing_left, no_entries, consume-state_of, first-AtLeast, entry_at, entry-IsSorted,
  parked, rest_of, fewer,
}

abbrev pub Pairs : Type 0
Pairs = List (List ℕ × List ℕ)

-- The live part of what the lists hold, in order.
abbrev pub IsMerged : List (List Entry) → Pairs → Type 0
IsMerged ls out =
    IsSorted out
    × ((x : List ℕ) → BTreeMap.get out x ≡ live (first_of ls x))
    × ((b : List ℕ) → All (Above b) ls → Above b out)

abbrev then_yield : List ℕ × List ℕ → Result Pairs → Result Pairs
then_yield p (err e) = err e
then_yield p (ok more) = ok (p ∷ more)

-- The value that a round adds to what the later rounds yield.
abbrev yield_value : List ℕ → LsmValue → Pairs → Pairs
yield_value key (value v) more = (key, v) ∷ more
yield_value key tombstone more = more

-- A merge with no error that stands before the given element of its heap.
abbrev standing : MergeIter → List ℕ × ℕ → List (List ℕ × ℕ) → MergeIter
standing m first rest = record {
  sources = m.sources;
  heads = m.heads;
  heap = first ∷ rest;
  error = none;
}

is_standing :
    (m : MergeIter) (first : List ℕ × ℕ) (rest : List (List ℕ × ℕ))
    → m.error ≡ none
    → m.heap ≡ first ∷ rest
    → standing m first rest ≡ m
is_standing m first rest e h = cc

-- What `collect` does with what a round found.
abbrev continue : ℕ → List ℕ → Option LsmValue → MergeIter → Result Pairs
continue fuel key none m = err (BknError.backend)
continue fuel key (some tombstone) m = collect fuel m
continue fuel key (some (value v)) m = then_yield (key, v) (collect fuel m)

collect-first :
    (fuel : ℕ) (m : MergeIter) (key : List ℕ) (i : ℕ) (rest : List (List ℕ × ℕ))
    → m.error ≡ none
    → m.heap ≡ (key, i) ∷ rest
    → collect (suc fuel) m ≡ continue fuel key (consume m key i rest).0 (consume m key i rest).1
collect-first fuel m key i rest e h =
    subst
      (λ n.
        collect (suc fuel) n ≡ continue fuel key (consume n key i rest).0 (consume n key i rest).1)
      (is_standing m (key, i) rest e h)
      (unfold collect in same (consume (standing m (key, i) rest) key i rest))
  where
    same :
        (c : Option LsmValue × MergeIter)
        → (elim c.0 [
          | none ↦ err (BknError.backend)
          | some tombstone ↦ collect fuel c.1
          | some (value v) ↦ elim (collect fuel c.1) [
            | err e ↦ err e
            | ok more ↦ ok ((key, v) ∷ more)
          ]
        ])
          ≡ continue fuel key c.0 c.1
    same (none, m) = refl
    same (some tombstone, m) = refl
    same (some (value v), m) = yielded (collect fuel m)
      where
        yielded :
            (r : Result Pairs)
            → (elim r [ err e ↦ err e | ok more ↦ ok ((key, v) ∷ more) ]) ≡ then_yield (key, v) r
        yielded (err e) = refl
        yielded (ok more) = refl

continue_ok :
    (fuel : ℕ) (key : List ℕ) (v : LsmValue) (m : MergeIter) (more : Pairs)
    → collect fuel m ≡ ok more
    → continue fuel key (some v) m ≡ ok (yield_value key v more)
continue_ok fuel key (value v) m more e = ap (then_yield (key, v)) e
continue_ok fuel key tombstone m more e = e

collect-empty : (fuel : ℕ) (m : MergeIter) → m.error ≡ none → m.heap ≡ [] → collect fuel m ≡ ok []
unfolding collect
collect-empty zero m e h = refl
collect-empty (suc fuel) m e h = rw (e, h) refl

IsMerged-nothing : (ls : List (List Entry)) → ((b : List ℕ) → All (Above b) ls) → IsMerged ls []
IsMerged-nothing ls past = (tt, λ x. nothing x, λ b a. tt)
  where
    nothing : (x : List ℕ) → BTreeMap.get [] x ≡ live (first_of ls x)
    nothing x = rw (first_of_past x ls (past x)) (unfold BTreeMap.get live in refl)

get-yield_value :
    (key : List ℕ) (v : LsmValue) (more : Pairs) (x : List ℕ)
    → Above key more
    → BTreeMap.get (yield_value key v more) x
      ≡ (if is_eq (bytes_cmp x key) then live (some v) else BTreeMap.get more x)
unfolding BTreeMap.get live
get-yield_value key (value v) more x a = refl
get-yield_value key tombstone more x a = elim (Bool-cases (is_eq (bytes_cmp x key))) [
  | inl e ↦
      (let p : x ≡ key = same_of_is_eq x key e in
        rw e (get_past x more (subst (λ k. Above k more) (sym p) a)))
  | inr e ↦ rw e refl
]

-- A round that yields a value of the least key, before a merge of the lists without that key.
IsMerged-round :
    (ls : List (List Entry)) (key : List ℕ) (v : LsmValue) (more : Pairs)
    → All IsSorted ls
    → All (AtLeast key) ls
    → first_of ls key ≡ some v
    → ((b : List ℕ) → All (Above b) ls → bytes_ord.cmp b key ≡ lt)
    → IsMerged (drops key ls) more
    → IsMerged ls (yield_value key v more)
IsMerged-round ls key v more s a f below m = (sorted v, λ x. lookup x, λ b h. above v b h)
  where
    past : Above key more
    past = m.2 key (drops-past key ls s a)

    sorted : (v : LsmValue) → IsSorted (yield_value key v more)
    sorted (value v) = (past, m.0)
    sorted tombstone = m.0

    lookup : (x : List ℕ) → BTreeMap.get (yield_value key v more) x ≡ live (first_of ls x)
    lookup x = get-yield_value key v more x past ∙ elim (Bool-cases (is_eq (bytes_cmp x key))) [
      | inl e ↦ (let p : x ≡ key = same_of_is_eq x key e in rw (e, p, f) refl)
      | inr e ↦ rw e (m.1 x ∙ ap live (first_of-drops key ls x e))
    ]

    above : (v : LsmValue) (b : List ℕ) → All (Above b) ls → Above b (yield_value key v more)
    above (value v) b h = (below b h, m.2 b (drops-Above b key ls h))
    above tombstone b h = m.2 b (drops-Above b key ls h)

drops_fewer :
    (ls : List (List Entry)) (key : List ℕ) (i : ℕ) (rest : List (List ℕ × ℕ))
    → (s : All IsSorted ls) (h : heap_of 0 ls ≡ (key, i) ∷ rest) → (fuel : ℕ) → total ls ≤ suc fuel
    → total (drops key ls) ≤ fuel
drops_fewer ls key i rest s h fuel b =
    let r : List Entry = rest_of ls key i rest s h in
    let e : drops key (set ls i r) ≡ drops key ls =
      drops-set key ls i (parked ls key i rest s h) r (entry_at ls key i rest s h)
        (entry-IsSorted ls key i rest s h).0 in
    let d : total (drops key ls) ≤ total (set ls i r) =
      subst (λ l. total l ≤ total (set ls i r)) e (total-drops key (set ls i r)) in
    omega (arith, b, d, fewer ls key i rest s h)

pub collect-state_of :
    (fuel : ℕ) (ls : List (List Entry))
    → total ls ≤ fuel
    → All IsSorted ls
    → (out : Pairs) × (collect fuel (state_of ls) ≡ ok out) × IsMerged ls out
collect-state_of zero ls b s =
    ([], unfold collect in refl, IsMerged-nothing ls (λ x. no_entries x ls b))
collect-state_of (suc fuel) ls b s = elim (List-cases (heap_of 0 ls)) [
  | inl h ↦ (
    [],
    collect-empty (suc fuel) (state_of ls) (unfold state_of in refl) (unfold state_of in h),
    IsMerged-nothing ls (λ x. nothing_left x 0 ls h),
  )
  | inr ((key, i), rest, h) ↦
      let (v, f, c) = consume-state_of ls key i rest s h in
      let left : total (drops key ls) ≤ fuel = drops_fewer ls key i rest s h fuel b in
      let (more, done, merged) =
        collect-state_of fuel (drops key ls) left (drops-IsSorted key ls s) in
      (
        yield_value key v more,
        collect-first fuel (state_of ls) key i rest (unfold state_of in refl) (unfold state_of in h)
            ∙ ap (λ (p : Option LsmValue × MergeIter). continue fuel key p.0 p.1) c
            ∙ continue_ok fuel key v (state_of (drops key ls)) more done,
        IsMerged-round ls key v more s (first-AtLeast ls key i rest s h) f
            (λ b a. (get_elem?-All (Above b) ls i a (entry_at ls key i rest s h)).0) merged,
      )
]
