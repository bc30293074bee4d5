-- ===== src/Lsm/Engine/Reads.antt =====
-- crates/bkndb-storage-lsm/src/engine/tx.rs: what `lookup` finds in the layers of a snapshot.
use mathlib.Core.Path.{subst}
use bkndb.Prelude.{
  ℕ, ◌≡◌, refl, sym, ap, ◌∙◌, List, [], ◌∷◌, ◌++◌, Option, none, some, All, All-append, or_else,
  Bool-cases, inl, inr,
}
use bkndb.Prelude.Order.{bytes_cmp, bytes_ord, is_eq}
use bkndb.Prelude.BTreeMap
use bkndb.Prelude.BTreeMap.{Bound, IsSorted, Above, range}
use bkndb.Error.{ok}
use bkndb.Lsm.Memtable.{Entry, LsmValue, value, tombstone, live}
use bkndb.Lsm.Merge.Lists.{first_of}
use bkndb.Lsm.Sstable.Handle.{SstableHandle, get}
use bkndb.Lsm.Sstable.Handle.Runs.{flatten}
use bkndb.Lsm.Sstable.Handle.Get.{IsBuilt, get_lem}
use bkndb.Lsm.Sstable.Write.{Crates}
use bkndb.Lsm.Engine.{
  ReadSnapshot, Pending, newest_first, lsm_value, pending_entry, pending_entries, lookup_memtables,
  lookup_sstables, lookup, or_value, or_result,
}

pub newest_first-snoc {ℓ} :
    {A : Type ℓ} (xs : List A) (x : A) → newest_first (xs ++ x ∷ []) ≡ x ∷ newest_first xs
newest_first-snoc [] x = refl
newest_first-snoc (y ∷ xs) x = ap (λ l. l ++ y ∷ []) (newest_first-snoc xs x)

pub All-newest_first {ℓ κ} :
    {A : Type ℓ} (P : A → Type κ) (xs : List A) → All P xs → All P (newest_first xs)
All-newest_first P [] a = tt
All-newest_first P (x ∷ xs) a =
    All-append P (newest_first xs) (x ∷ []) (All-newest_first P xs a.1) (a.0, tt)

or_else_assoc {ℓ} :
    {A : Type ℓ} (a b c : Option A) → or_else (or_else a b) c ≡ or_else a (or_else b c)
unfolding or_else
or_else_assoc none b c = refl
or_else_assoc (some x) b c = refl

pub first_of-append :
    (xs ys : List (List Entry)) (key : List ℕ)
    → first_of (xs ++ ys) key ≡ or_else (first_of xs key) (first_of ys key)
unfolding first_of
first_of-append [] ys key = unfold or_else in refl
first_of-append (x ∷ xs) ys key =
    ap (or_else (BTreeMap.get x key)) (first_of-append xs ys key)
    ∙ sym (or_else_assoc (BTreeMap.get x key) (first_of xs key) (first_of ys key))

own_write :
    (p : Pending) (key : List ℕ) (older : Option LsmValue)
    → or_result (BTreeMap.get p key) (ok (live older))
      ≡ ok (live (or_else (BTreeMap.get (pending_entries p) key) older))
unfolding BTreeMap.get
own_write [] key older = unfold or_else in refl
own_write ((k, v) ∷ p) key older = elim (Bool-cases (is_eq (bytes_cmp key k))) [
  | inl e ↦ rw e (stored v)
  | inr e ↦ rw e (own_write p key older)
]
  where
    stored : (v : Option (List ℕ)) → ok v ≡ ok (live (or_else (some (lsm_value v)) older))
    stored none = unfold or_else live in refl
    stored (some bytes) = unfold or_else live in refl

abbrev pub pending_lists : Option Pending → List (List Entry)
pending_lists none = []
pending_lists (some p) = pending_entries p ∷ []

-- The layers of a snapshot, the newest first.
abbrev pub layers : ReadSnapshot → List (List Entry) → List (List Entry)
layers s tables = (s.active_memtable ∷ newest_first s.immutable_memtables) ++ newest_first tables

abbrev pub all_layers : ReadSnapshot → Option Pending → List (List Entry) → List (List Entry)
all_layers s pending tables = pending_lists pending ++ layers s tables

module _ (c : Crates) where
  -- An open table of the given entries.
  abbrev pub TableHolds : SstableHandle → List Entry → Type 0
  TableHolds h es = (ess : List (List Entry)) × IsBuilt c.crc32 c.lz4 h ess × (flatten ess ≡ es)

  abbrev pub AllTables : List SstableHandle → List (List Entry) → Type 0
  AllTables [] [] = Unit
  AllTables (h ∷ hs) (es ∷ ts) = TableHolds h es × AllTables hs ts
  AllTables _ _ = ⊥

  pub AllTables-append :
      (hs gs : List SstableHandle) (ts us : List (List Entry))
      → AllTables hs ts
      → AllTables gs us
      → AllTables (hs ++ gs) (ts ++ us)
  AllTables-append [] gs [] us a b = b
  AllTables-append [] gs (es ∷ ts) us a b = elim a [ ]
  AllTables-append (h ∷ hs) gs [] us a b = elim a [ ]
  AllTables-append (h ∷ hs) gs (es ∷ ts) us a b = (a.0, AllTables-append hs gs ts us a.1 b)

  pub AllTables-newest_first :
      (hs : List SstableHandle) (ts : List (List Entry))
      → AllTables hs ts
      → AllTables (newest_first hs) (newest_first ts)
  AllTables-newest_first [] [] a = tt
  AllTables-newest_first [] (es ∷ ts) a = elim a [ ]
  AllTables-newest_first (h ∷ hs) [] a = elim a [ ]
  AllTables-newest_first (h ∷ hs) (es ∷ ts) a =
      AllTables-append (newest_first hs) (h ∷ []) (newest_first ts) (es ∷ [])
        (AllTables-newest_first hs ts a.1) (a.0, tt)

  get-TableHolds :
      (h : SstableHandle) (es : List Entry) (key : List ℕ)
      → TableHolds h es
      → get c.crc32 c.lz4 h key ≡ ok (BTreeMap.get es key)
  get-TableHolds h es key (ess, built, e) =
      get_lem c.crc32 c.lz4 h ess built key ∙ ap (λ l. ok (BTreeMap.get l key)) e

  TableHolds-IsSorted : (h : SstableHandle) (es : List Entry) → TableHolds h es → IsSorted es
  TableHolds-IsSorted h es (ess, built, e) = subst IsSorted e built.sorted

  pub AllTables-IsSorted :
      (hs : List SstableHandle) (ts : List (List Entry)) → AllTables hs ts → All IsSorted ts
  AllTables-IsSorted [] [] a = tt
  AllTables-IsSorted [] (es ∷ ts) a = elim a [ ]
  AllTables-IsSorted (h ∷ hs) [] a = elim a [ ]
  AllTables-IsSorted (h ∷ hs) (es ∷ ts) a =
      (TableHolds-IsSorted h es a.0, AllTables-IsSorted hs ts a.1)

  lookup_sstables_lem :
      (hs : List SstableHandle) (ts : List (List Entry)) (key : List ℕ)
      → AllTables hs ts
      → lookup_sstables c hs key ≡ ok (live (first_of ts key))
  unfolding lookup_sstables first_of
  lookup_sstables_lem [] [] key a = unfold live in refl
  lookup_sstables_lem [] (es ∷ ts) key a = elim a [ ]
  lookup_sstables_lem (h ∷ hs) [] key a = elim a [ ]
  lookup_sstables_lem (h ∷ hs) (es ∷ ts) key a =
      rw (get-TableHolds h es key a.0, lookup_sstables_lem hs ts key a.1)
        (go (BTreeMap.get es key) (first_of ts key))
    where
      go :
          (o older : Option LsmValue)
          → or_result (or_value o none) (ok (live older)) ≡ ok (live (or_else o older))
      go none older = unfold or_else in refl
      go (some (value bytes)) older = unfold or_else live in refl
      go (some tombstone) older = unfold or_else live in refl

  lookup_memtables_lem :
      (ms : List (List Entry)) (key : List ℕ) (rest : Option LsmValue)
      → or_result (lookup_memtables ms key) (ok (live rest))
        ≡ ok (live (or_else (first_of ms key) rest))
  unfolding lookup_memtables first_of
  lookup_memtables_lem [] key rest = unfold or_else in refl
  lookup_memtables_lem (m ∷ ms) key rest =
      go (BTreeMap.get m key) (lookup_memtables_lem ms key rest)
      ∙ ap (λ o. ok (live o)) (sym (or_else_assoc (BTreeMap.get m key) (first_of ms key) rest))
    where
      go :
          (o : Option LsmValue)
          → or_result (lookup_memtables ms key) (ok (live rest))
            ≡ ok (live (or_else (first_of ms key) rest))
          → or_result (or_value o (lookup_memtables ms key)) (ok (live rest))
            ≡ ok (live (or_else o (or_else (first_of ms key) rest)))
      go none later = later ∙ (unfold or_else in refl)
      go (some (value bytes)) later = unfold or_else live in refl
      go (some tombstone) later = unfold or_else live in refl

  -- A lookup gives the value of the newest layer that has the key, the transaction's own writes
  -- first: the layers are the active memtable, the immutable ones and the tables, each group from
  -- the newest on.
  pub lookup_lem :
      (s : ReadSnapshot) (pending : Option Pending) (tables : List (List Entry)) (key : List ℕ)
      → AllTables s.sstables tables
      → lookup c s pending key ≡ ok (live (first_of (all_layers s pending tables) key))
  unfolding lookup
  lookup_lem s pending tables key a =
      ap (λ r. or_result (pending_entry pending key) (or_result (lookup_memtables memtables key) r))
        (lookup_sstables_lem (newest_first s.sstables) (newest_first tables) key
          (AllTables-newest_first s.sstables tables a))
      ∙ ap (or_result (pending_entry pending key)) (
          lookup_memtables_lem memtables key (first_of (newest_first tables) key)
          ∙ ap (λ o. ok (live o)) (sym (first_of-append memtables (newest_first tables) key)))
      ∙ own pending
    where
      memtables : List (List Entry)
      memtables = s.active_memtable ∷ newest_first s.immutable_memtables

      own :
          (pending : Option Pending)
          → or_result (pending_entry pending key) (ok (live (first_of (layers s tables) key)))
            ≡ ok (live (first_of (all_layers s pending tables) key))
      own none = unfold pending_entry in refl
      own (some p) =
          unfold pending_entry first_of in own_write p key (first_of (layers s tables) key)
