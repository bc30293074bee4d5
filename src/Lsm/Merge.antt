-- ===== src/Lsm/Merge.antt =====
-- crates/bkndb-storage-lsm/src/compaction.rs: the merge of ascending sources, newest first.
-- A source is the list of what its iterator will still yield.
pub mod Drop
pub mod Lists
pub mod Heads
pub mod Rounds
pub mod Collect
pub mod Start
use bkndb.Prelude.{
  ℕ, zero, suc, ◌+◌, List, [], ◌∷◌, Bool, true, false, Option, none, some, length, get_elem?, set,
  if◌then◌else◌,
}
use bkndb.Prelude.Order.{Ord, bytes_cmp, bytes_ord, nat_ord, pair_ord, is_eq}
use bkndb.Prelude.Heap.{push}
use bkndb.Error.{BknError, Result, ok, err}
use bkndb.Lsm.Memtable.{Entry, LsmValue, value, tombstone}

abbrev pub EntryIter : Type 0
EntryIter = List (Result Entry)

-- The heap is the ascending list of its pairs of a key and a source's index.
pub record MergeIter : Type 0 where
  pub sources : List EntryIter
  pub heads : List (Option LsmValue)
  pub heap : List (List ℕ × ℕ)
  pub error : Option BknError

-- `Some(Err(e)) if self.error.is_none()`
abbrev pub first_error : Option BknError → BknError → Option BknError
first_error none e = some e
first_error (some first) e = some first

unfoldable pub pull : MergeIter → ℕ → EntryIter → MergeIter
pull m i [] = m
pull m i (ok (key, v) ∷ rest) = record m {
  sources = set m.sources i rest;
  heads = set m.heads i (some v);
  heap = push (key, i) m.heap;
}
pull m i (err e ∷ rest) = record m { sources = set m.sources i rest; error = first_error m.error e }

-- An index past the sources, where the code panics, changes nothing.
unfoldable pub advance : MergeIter → ℕ → MergeIter
advance m i = elim (get_elem? m.sources i) [ none ↦ m | some source ↦ pull m i source ]

abbrev pub no_heads : List EntryIter → List (Option LsmValue)
no_heads [] = []
no_heads (s ∷ sources) = none ∷ no_heads sources

-- `for i in 0..this.sources.len()`
unfoldable pub advance_from : ℕ → ℕ → MergeIter → MergeIter
advance_from zero i m = m
advance_from (suc left) i m = advance_from left (i + 1) (advance m i)

unfoldable pub new : List EntryIter → MergeIter
new sources =
    advance_from (length sources) 0
      (record { sources = sources; heads = no_heads sources; heap = []; error = none })

-- `self.heap.pop()` and `self.heads[i].take()`, with what is left.
abbrev pub taken : MergeIter → List (List ℕ × ℕ) → ℕ → MergeIter
taken m rest i = record m { heads = set m.heads i none; heap = rest }

-- The `while let` on the heap's first element, with fuel: every round consumes an entry.
unfoldable pub discard : ℕ → List ℕ → MergeIter → MergeIter
discard zero key m = m
discard (suc fuel) key m = elim m.heap [
  | [] ↦ m
  | (k, j) ∷ rest ↦
      let next = discard fuel key (advance (taken m rest j) j) in
      if is_eq (bytes_cmp k key) then next else m
]

-- All that the sources and the heap still hold.
unfoldable pub remaining : List EntryIter → ℕ
remaining [] = 0
remaining (s ∷ sources) = length s + remaining sources

abbrev pub rounds : MergeIter → ℕ
rounds m = remaining m.sources + length m.heap

-- A round of the `loop` of `next` after the heap's first element is popped: its value, and the
-- iterator past every entry of its key. `none` is the panic on a head that is not there.
unfoldable pub consume : MergeIter → List ℕ → ℕ → List (List ℕ × ℕ) → Option LsmValue × MergeIter
consume m key i rest =
    let m' = advance (taken m rest i) i in
    (elim (get_elem? m.heads i) [ none ↦ none | some head ↦ head ], discard (rounds m') key m')

-- Every element that `next` yields, up to the first error: what collects the iterator gets. Fuel
-- bounds the rounds, each of which consumes an entry.
unfoldable pub collect : ℕ → MergeIter → Result (List (List ℕ × List ℕ))
collect zero m = ok []
collect (suc fuel) m = elim m.error [
  | some e ↦ err e
  | none ↦ elim m.heap [
    | [] ↦ ok []
    | (key, i) ∷ rest ↦
        let c = consume m key i rest in
        elim c.0 [
          | none ↦ err (BknError.backend)
          | some tombstone ↦ collect fuel c.1
          | some (value v) ↦ elim (collect fuel c.1) [
            | err e ↦ err e
            | ok more ↦ ok ((key, v) ∷ more)
          ]
        ]
  ]
]
