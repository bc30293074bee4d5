-- ===== src/Lsm/Engine/Store/Fits.antt =====
-- crates/bkndb-storage-lsm/src/engine/write.rs: the lengths of what tables hold carry over to what
-- is written from them.
use bkndb.Prelude.{
  ℕ, ◌≡◌, refl, sym, ap, ◌∙◌, List, [], ◌∷◌, true, Option, none, some, All, All-append, or_else,
  Bool-cases, Option-cases, inl, inr,
}
use bkndb.Prelude.Order.{bytes_cmp, bytes_ord, bytes_cmp-IsTotal, is_eq, is_le, same_of_is_eq}
use bkndb.Prelude.BTreeMap
use bkndb.Prelude.BTreeMap.{IsSorted, Above, insert}
use bkndb.Lsm.Memtable.{Entry, LsmValue, value, tombstone, live}
use bkndb.Lsm.Merge.Lists.{first_of}
use bkndb.Lsm.Merge.Collect.{Pairs}
use bkndb.Lsm.Sstable.Block.{EntryFits}
use bkndb.Lsm.Sstable.Handle.{Block, SstableHandle}
use bkndb.Lsm.Sstable.Handle.Runs.{flatten}
use bkndb.Lsm.Sstable.Handle.Get.{AllHold}
use bkndb.Lsm.Sstable.Write.{Crates}
use bkndb.Lsm.Engine.Store.{values_of}
use bkndb.Lsm.Engine.Reads.{AllTables}
use mathlib.Core.Path.{subst}

flatten-fits :
    (c : Crates) (h : SstableHandle) (blocks : List Block) (ess : List (List Entry))
    → AllHold c.crc32 c.lz4 h blocks ess
    → All EntryFits (flatten ess)
flatten-fits c h [] [] a = tt
flatten-fits c h [] (es ∷ ess) a = elim a [ ]
flatten-fits c h (b ∷ blocks) [] a = elim a [ ]
flatten-fits c h (b ∷ blocks) (es ∷ ess) a =
    All-append EntryFits es (flatten ess) a.0.1 (flatten-fits c h blocks ess a.1)

pub tables_fit :
    (c : Crates) (hs : List SstableHandle) (ts : List (List Entry))
    → AllTables c hs ts
    → All (All EntryFits) ts
tables_fit c [] [] a = tt
tables_fit c [] (es ∷ ts) a = elim a [ ]
tables_fit c (h ∷ hs) [] a = elim a [ ]
tables_fit c (h ∷ hs) (es ∷ ts) ((ess, built, e), a) =
    (subst (All EntryFits) e (flatten-fits c h h.blocks ess built.blocks), tables_fit c hs ts a)

-- What a list gives for a key is one of its entries.
entry_of_get :
    (P : Entry → Type 0) (l : List Entry) (key : List ℕ) (v : LsmValue)
    → All P l
    → BTreeMap.get l key ≡ some v
    → P (key, v)
unfolding BTreeMap.get
entry_of_get P [] key v a g = absurd (cc)
entry_of_get P ((k, w) ∷ l) key v a g = elim (Bool-cases (is_eq (bytes_cmp key k))) [
  | inl e ↦
      let p : k ≡ key = sym (same_of_is_eq key k e) in
      let q : w ≡ v = cc (rw e at g) in
      subst (λ (x : Entry). P x) (ap (λ x. (x, w)) p ∙ ap (λ x. (key, x)) q) a.0
  | inr e ↦ entry_of_get P l key v a.1 (rw e at g)
]

entry_of_first :
    (P : Entry → Type 0) (ls : List (List Entry)) (key : List ℕ) (v : LsmValue)
    → All (All P) ls
    → first_of ls key ≡ some v
    → P (key, v)
unfolding first_of
entry_of_first P [] key v a g = absurd (cc)
entry_of_first P (l ∷ ls) key v a g = elim (Option-cases (BTreeMap.get l key)) [
  | inl e ↦ entry_of_first P ls key v a.1 (unfold or_else in (rw e at g))
  | inr (w, e) ↦ entry_of_get P l key v a.0 (e ∙ (unfold or_else in (rw e at g)))
]

live-some : (o : Option LsmValue) (bytes : List ℕ) → live o ≡ some bytes → o ≡ some (value bytes)
unfolding live
live-some none bytes h = absurd (cc)
live-some (some tombstone) bytes h = absurd (cc)
live-some (some (value b)) bytes h =
    ap (λ (x : Option (List ℕ)). elim x [ none ↦ none | some y ↦ some (value y) ]) h

get-later :
    (k : List ℕ) (v : List ℕ) (out : Pairs) (key w : List ℕ)
    → Above k out
    → BTreeMap.get out key ≡ some w
    → BTreeMap.get ((k, v) ∷ out) key ≡ some w
unfolding BTreeMap.get
get-later k v out key w a g = elim (Bool-cases (is_eq (bytes_cmp key k))) [
  | inr e ↦ rw e g
  | inl e ↦ absurd (
      let p : key ≡ k = same_of_is_eq key k e in
      cc (rw p at g, BTreeMap.get-Above k k out (self k) a))
]
  where
    self : (k : List ℕ) → is_le (bytes_cmp k k) ≡ true
    self k = ap is_le (bytes_cmp-IsTotal.self_equal k)

get-first : (k v : List ℕ) (out : Pairs) → BTreeMap.get ((k, v) ∷ out) k ≡ some v
unfolding BTreeMap.get
get-first k v out = rw (bytes_cmp-IsTotal.self_equal k) refl

values_fit :
    (out : Pairs) (lookup : List ℕ → Option (List ℕ))
    → IsSorted out
    → ((key bytes : List ℕ) → BTreeMap.get out key ≡ some bytes → EntryFits (key, value bytes))
    → All EntryFits (values_of out)
values_fit [] l s f = tt
values_fit ((k, v) ∷ out) l s f = (
  f k v (get-first k v out),
  values_fit out l s.1 (λ key w g. f key w (get-later k v out key w s.0 g)),
)

pub merged_fit :
    (ls : List (List Entry)) (out : Pairs)
    → All (All EntryFits) ls
    → IsSorted out
    → ((key : List ℕ) → BTreeMap.get out key ≡ live (first_of ls key))
    → All EntryFits (values_of out)
merged_fit ls out a s g =
    values_fit out (λ key. none) s
      (λ key bytes h.
        entry_of_first EntryFits ls key (value bytes) a
          (live-some (first_of ls key) bytes (sym (g key) ∙ h)))

Above-values_of : (b : List ℕ) (out : Pairs) → Above b out → Above b (values_of out)
Above-values_of b [] a = tt
Above-values_of b ((k, v) ∷ out) a = (a.0, Above-values_of b out a.1)

pub values_of-IsSorted : (out : Pairs) → IsSorted out → IsSorted (values_of out)
values_of-IsSorted [] s = tt
values_of-IsSorted ((k, v) ∷ out) s = (Above-values_of k out s.0, values_of-IsSorted out s.1)

pub live-values_of :
    (out : Pairs) (key : List ℕ) → live (BTreeMap.get (values_of out) key) ≡ BTreeMap.get out key
unfolding BTreeMap.get live
live-values_of [] key = refl
live-values_of ((k, v) ∷ out) key = elim (Bool-cases (is_eq (bytes_cmp key k))) [
  | inl e ↦ rw e refl
  | inr e ↦ rw e (live-values_of out key)
]
