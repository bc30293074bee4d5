-- ===== src/Lsm/Engine/Scans.antt =====
-- crates/bkndb-storage-lsm/src/engine/tx.rs: a scan of a snapshot agrees with its lookups.
use bkndb.Prelude.{
  ℕ, ◌+◌, ◌<◌, ◌≤◌, ◌≡◌, refl, sym, ap, ◌∙◌, arith, List, [], ◌∷◌, ◌++◌, true, false, Option, none,
  some, All, All-append, length, or_else, if◌then◌else◌, Bool-cases, inl, inr,
}
use bkndb.Prelude.Order.{bytes_ord}
use bkndb.Prelude.BTreeMap
use bkndb.Prelude.BTreeMap.{Bound, IsSorted, Above, range, in_bounds, get-range, range-IsSorted}
use bkndb.Error.{ok}
use bkndb.Lsm.Bounds.{bounds_empty, bounds_empty-in_bounds}
use bkndb.Lsm.Memtable.{Entry, Memtable, live}
use bkndb.Lsm.Merge.{collect, new}
use bkndb.Lsm.Merge.Heads.{all_ok}
use bkndb.Lsm.Merge.Lists.{first_of, total}
use bkndb.Lsm.Merge.Collect.{Pairs}
use bkndb.Lsm.Merge.Start.{sources_of, merge_lem}
use bkndb.Lsm.Sstable.Handle.{SstableHandle}
use bkndb.Lsm.Sstable.Cursor.Scan.{drain-cursor}
use bkndb.Lsm.Sstable.Write.{Crates}
use bkndb.Lsm.Engine.{
  ReadSnapshot, Pending, newest_first, lsm_value, pending_entries, pending_sources,
  memtable_sources, table_sources, scan_sources, lookup,
}
use bkndb.Lsm.Engine.Reads.{
  AllTables, AllTables-newest_first, AllTables-IsSorted, All-newest_first, pending_lists, layers,
  all_layers, lookup_lem,
}

module _ (lo hi : Bound (List ℕ)) where
  abbrev pub ranges : List (List Entry) → List (List Entry)
  ranges [] = []
  ranges (l ∷ ls) = range l lo hi ∷ ranges ls

  ranges-append : (xs ys : List (List Entry)) → ranges (xs ++ ys) ≡ ranges xs ++ ranges ys
  ranges-append [] ys = refl
  ranges-append (x ∷ xs) ys = ap (◌∷◌ (range x lo hi)) (ranges-append xs ys)

  pub ranges-IsSorted : (ls : List (List Entry)) → All IsSorted ls → All IsSorted (ranges ls)
  ranges-IsSorted [] s = tt
  ranges-IsSorted (l ∷ ls) s = (range-IsSorted l lo hi s.0, ranges-IsSorted ls s.1)

  length-range : (l : List Entry) → length (range l lo hi) ≤ length l
  unfolding range
  length-range [] = omega arith
  length-range ((k, v) ∷ l) = elim (Bool-cases (in_bounds lo hi k)) [
    | inl e ↦ rw e (omega (arith, length-range l))
    | inr e ↦ rw e (omega (arith, length-range l))
  ]

  pub total-ranges : (ls : List (List Entry)) → total (ranges ls) ≤ total ls
  total-ranges [] = omega arith
  total-ranges (l ∷ ls) = omega (arith, length-range l, total-ranges ls)

  pub first_of-ranges :
      (ls : List (List Entry)) (key : List ℕ)
      → first_of (ranges ls) key ≡ (if in_bounds lo hi key then first_of ls key else none)
  unfolding first_of
  first_of-ranges [] key = elim (Bool-cases (in_bounds lo hi key)) [
    | inl e ↦ rw e refl
    | inr e ↦ rw e refl
  ]
  first_of-ranges (l ∷ ls) key =
      rw (get-range l lo hi key, first_of-ranges ls key)
        (elim (Bool-cases (in_bounds lo hi key)) [
          | inl e ↦ rw e refl
          | inr e ↦ rw e (unfold or_else in refl)
        ])

  pending_range : (p : Pending) → pending_entries (range p lo hi) ≡ range (pending_entries p) lo hi
  unfolding range
  pending_range [] = refl
  pending_range ((k, v) ∷ p) = elim (Bool-cases (in_bounds lo hi k)) [
    | inl e ↦ rw e (ap (◌∷◌ (k, lsm_value v)) (pending_range p))
    | inr e ↦ rw e (pending_range p)
  ]

  own_sources :
      (pending : Option Pending)
      → pending_sources pending lo hi ≡ sources_of (ranges (pending_lists pending))
  unfolding pending_sources
  own_sources none = refl
  own_sources (some p) = ap (λ l. all_ok l ∷ []) (pending_range p)

  memtable_sources-eq : (ms : List Memtable) → memtable_sources ms lo hi ≡ sources_of (ranges ms)
  unfolding memtable_sources
  memtable_sources-eq [] = refl
  memtable_sources-eq (m ∷ ms) = ap (◌∷◌ (all_ok (range m lo hi))) (memtable_sources-eq ms)

  pub table_sources-eq :
      (c : Crates) (fuel : ℕ) (hs : List SstableHandle) (ts : List (List Entry))
      → AllTables c hs ts
      → total ts < fuel
      → table_sources c fuel hs lo hi ≡ sources_of (ranges ts)
  unfolding table_sources
  table_sources-eq c fuel [] [] a f = refl
  table_sources-eq c fuel [] (es ∷ ts) a f = elim a [ ]
  table_sources-eq c fuel (h ∷ hs) [] a f = elim a [ ]
  table_sources-eq c fuel (h ∷ hs) (es ∷ ts) ((ess, built, e), a) f =
      rw
        (
          drain-cursor c.crc32 c.lz4 h ess built lo hi fuel (omega (arith, f, ap length e)),
          e,
          table_sources-eq c fuel hs ts a (omega (arith, f)),
        )
        refl

sources_of-append :
    (xs ys : List (List Entry)) → sources_of (xs ++ ys) ≡ sources_of xs ++ sources_of ys
sources_of-append [] ys = refl
sources_of-append (x ∷ xs) ys = ap (◌∷◌ (all_ok x)) (sources_of-append xs ys)

pub total-append : (xs ys : List (List Entry)) → total (xs ++ ys) ≡ total xs + total ys
total-append [] ys = omega arith
total-append (x ∷ xs) ys = omega (arith, total-append xs ys)

Above-pending_entries : (b : List ℕ) (p : Pending) → Above b p → Above b (pending_entries p)
Above-pending_entries b [] a = tt
Above-pending_entries b ((k, v) ∷ p) a = (a.0, Above-pending_entries b p a.1)

pending_entries-IsSorted : (p : Pending) → IsSorted p → IsSorted (pending_entries p)
pending_entries-IsSorted [] s = tt
pending_entries-IsSorted ((k, v) ∷ p) s =
    (Above-pending_entries k p s.0, pending_entries-IsSorted p s.1)

abbrev pub AllSorted : Option Pending → Type 0
AllSorted none = Unit
AllSorted (some p) = IsSorted p

module _ (c : Crates) where
  -- The open tables hold the given entries, and the memtables ascend.
  pub record IsSnapshot (s : ReadSnapshot) (tables : List (List Entry)) : Type 0 where
    pub holds : AllTables c s.sstables tables
    pub active : IsSorted s.active_memtable
    pub immutable : All IsSorted s.immutable_memtables

  pub layers-IsSorted :
      (s : ReadSnapshot) (tables : List (List Entry))
      → IsSnapshot s tables
      → All IsSorted (layers s tables)
  layers-IsSorted s tables i = (
    i.active,
    All-append IsSorted (newest_first s.immutable_memtables) (newest_first tables)
        (All-newest_first IsSorted s.immutable_memtables i.immutable)
        (All-newest_first IsSorted tables (AllTables-IsSorted c s.sstables tables i.holds)),
  )

  module _ (s : ReadSnapshot) (tables : List (List Entry)) (i : IsSnapshot s tables)
      (pending : Option Pending) (p : AllSorted pending) (lo hi : Bound (List ℕ)) where
    abbrev all : List (List Entry)
    all = all_layers s pending tables

    all-IsSorted : All IsSorted all
    all-IsSorted =
        All-append IsSorted (pending_lists pending) (layers s tables) (own pending p)
          (layers-IsSorted s tables i)
      where
        own : (pending : Option Pending) → AllSorted pending → All IsSorted (pending_lists pending)
        own none p = tt
        own (some q) p = (pending_entries-IsSorted q p, tt)

    scan_sources-eq :
        (fuel : ℕ)
        → bounds_empty lo hi ≡ false
        → total all < fuel
        → scan_sources c fuel s pending lo hi ≡ sources_of (ranges lo hi all)
    unfolding scan_sources
    scan_sources-eq fuel e f =
        let tables_there =
          table_sources-eq lo hi c fuel (newest_first s.sstables) (newest_first tables)
            (AllTables-newest_first c s.sstables tables i.holds)
            (omega (
              arith,
              f,
              total-append (pending_lists pending) (layers s tables),
              total-append memtables (newest_first tables),
            )) in
        rw (e, own_sources lo hi pending, memtable_sources-eq lo hi memtables, tables_there)
          (sym (
            ap sources_of (ranges-append lo hi (pending_lists pending) (layers s tables))
            ∙ sources_of-append (ranges lo hi (pending_lists pending))
                (ranges lo hi (layers s tables))
            ∙ ap (λ l. sources_of (ranges lo hi (pending_lists pending)) ++ l)
                (ap sources_of (ranges-append lo hi memtables (newest_first tables))
                  ∙ sources_of-append (ranges lo hi memtables)
                      (ranges lo hi (newest_first tables)))))
      where
        memtables : List (List Entry)
        memtables = s.active_memtable ∷ newest_first s.immutable_memtables

    nothing_scanned :
        (fuel : ℕ) → bounds_empty lo hi ≡ true → scan_sources c fuel s pending lo hi ≡ sources_of []
    unfolding scan_sources
    nothing_scanned fuel e = rw e refl

    -- What a scan finds under a key.
    abbrev pub Scanned : Pairs → Type 0
    Scanned out =
        IsSorted out
        × ((key : List ℕ)
            → ok (BTreeMap.get out key)
              ≡ (if in_bounds lo hi key then lookup c s pending key else ok none))

    -- A scan, asked for more entries than the layers have, ends without an error, with ascending keys,
    -- and finds a key of its range exactly with what a lookup finds, and no other key.
    pub scan_lem :
        (fuel : ℕ)
        → total all < fuel
        → (out : Pairs) × (collect fuel (new (scan_sources c fuel s pending lo hi)) ≡ ok out)
          × Scanned out
    scan_lem fuel f = elim (Bool-cases (bounds_empty lo hi)) [
      | inl e ↦
          let (out, done, merged) = merge_lem [] fuel (omega arith) tt in
          (
            out,
            ap (λ l. collect fuel (new l)) (nothing_scanned fuel e) ∙ done,
            (merged.0, λ key. nothing out key e (merged.1 key)),
          )
      | inr e ↦
          let (out, done, merged) =
            merge_lem (ranges lo hi all) fuel (omega (arith, f, total-ranges lo hi all))
              (ranges-IsSorted lo hi all all-IsSorted) in
          (
            out,
            ap (λ l. collect fuel (new l)) (scan_sources-eq fuel e f) ∙ done,
            (merged.0, λ key. same out key (merged.1 key)),
          )
    ]
      where
        nothing :
            (out : Pairs) (key : List ℕ)
            → bounds_empty lo hi ≡ true
            → BTreeMap.get out key ≡ live (first_of [] key)
            → ok (BTreeMap.get out key)
              ≡ (if in_bounds lo hi key then lookup c s pending key else ok none)
        nothing out key e v =
            rw (bounds_empty-in_bounds lo hi key e, v) (unfold first_of live in refl)

        same :
            (out : Pairs) (key : List ℕ)
            → BTreeMap.get out key ≡ live (first_of (ranges lo hi all) key)
            → ok (BTreeMap.get out key)
              ≡ (if in_bounds lo hi key then lookup c s pending key else ok none)
        same out key v =
            rw (v, first_of-ranges lo hi all key, lookup_lem c s pending tables key i.holds)
              (elim (Bool-cases (in_bounds lo hi key)) [
                | inl inside ↦ rw inside refl
                | inr outside ↦ rw outside (unfold live in refl)
              ])
