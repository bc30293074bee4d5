-- ===== src/Examples/MergeRuns.antt =====
-- crates/bkndb-storage-lsm/src/compaction.rs at two concrete sources.
use bkndb.Prelude.{◌≡◌, refl, arith, List, [], ◌∷◌}
use bkndb.Prelude.Order.{bytes_cmp, bytes_ord}
use bkndb.Error.{ok}
use bkndb.Lsm.Memtable.{Entry, value, tombstone}
use bkndb.Lsm.Merge.{new, collect}
use bkndb.Lsm.Merge.Collect.{Pairs, IsMerged}
use bkndb.Lsm.Merge.Start.{sources_of, merge_lem}

-- The newer source deletes "a" and overwrites "b".
abbrev newer : List Entry
newer = (b'a' ∷ [], tombstone) ∷ (b'b' ∷ [], value (2 ∷ [])) ∷ []

abbrev older : List Entry
older = (b'a' ∷ [], value (1 ∷ [])) ∷ (b'b' ∷ [], value (1 ∷ [])) ∷ (b'c' ∷ [], value (3 ∷ [])) ∷ []

merge_lem_example :
    (out : Pairs) × (collect 5 (new (sources_of (newer ∷ older ∷ []))) ≡ ok out)
    × IsMerged (newer ∷ older ∷ []) out
unfolding bytes_cmp
merge_lem_example =
    merge_lem (newer ∷ older ∷ []) 5 (omega arith)
      (((refl, tt), (tt, tt)), (((refl, (refl, tt)), ((refl, tt), (tt, tt))), tt))
