-- ===== src/Lsm/Sstable/Cursor/Scan.antt =====
-- crates/bkndb-storage-lsm/src/sstable/mod.rs: a cursor over a range yields the range of the entries.
use Prim.Native.Nat.Ordering.{lt}
use bkndb.Prelude.{
  ℕ, zero, suc, ◌<◌, ◌≤◌, ◌≡◌, refl, ap, sym, ◌∙◌, arith, List, [], ◌∷◌, ◌++◌, true, ◌||◌, All,
  length, drop, Bool-cases, inl, inr,
}
use bkndb.Prelude.Order.{bytes_cmp, bytes_ord, is_lt, is_le}
use bkndb.Prelude.BTreeMap.{Bound, included, excluded, unbounded, range, IsSorted}
use bkndb.Lsm.Codec.{Crc32, Lz4}
use bkndb.Lsm.Memtable.{Entry}
use bkndb.Lsm.Merge.Heads.{all_ok}
use bkndb.Lsm.Sstable.{below_start}
use bkndb.Lsm.Sstable.Block.{from_start}
use bkndb.Lsm.Sstable.Handle.{
  Block, SstableHandle, partition_point, block_for, checked_pred, is_empty,
}
use bkndb.Lsm.Sstable.Handle.Runs.{flatten, before-lt, or-cases, append-IsSorted_right}
use bkndb.Lsm.Sstable.Handle.Get.{AllHold, IsBuilt}
use bkndb.Lsm.Sstable.Writer.{unwrap_or}
use bkndb.Lsm.Sstable.Cursor.{cursor, drain, next, first_block, ends_below, starts_past}
use bkndb.Lsm.Sstable.Cursor.Drain.{until_end, from_start-append, drain-at_block}
use bkndb.Lsm.Sstable.Cursor.Outside.{range_none, All-past, All-before, lt_of_lt_le}
use bkndb.Lsm.Sstable.Cursor.Filter.{until_end-from_start}

all_below :
    (lo : Bound (List ℕ)) (es : List Entry)
    → All (λ e. below_start (e.0) lo ≡ true) es
    → from_start lo es ≡ []
unfolding from_start
all_below lo [] a = refl
all_below lo (e ∷ es) a = rw (a.0) (all_below lo es a.1)

length-from_start : (lo : Bound (List ℕ)) (es : List Entry) → length (from_start lo es) ≤ length es
unfolding from_start
length-from_start lo [] = omega arith
length-from_start lo (e ∷ es) = elim (Bool-cases (below_start (e.0) lo)) [
  | inl b ↦ rw b (omega (arith, length-from_start lo es))
  | inr b ↦ rw b (omega (arith, length-from_start lo es))
]

module _ (crc32 : Crc32) (lz4 : Lz4) (h : SstableHandle) where
  AllHold-drop :
      (n : ℕ) (blocks : List Block) (ess : List (List Entry))
      → AllHold crc32 lz4 h blocks ess
      → AllHold crc32 lz4 h (drop n blocks) (drop n ess)
  AllHold-drop zero blocks ess a = a
  AllHold-drop (suc n) [] [] a = tt
  AllHold-drop (suc n) [] (es ∷ ess) a = elim a [ ]
  AllHold-drop (suc n) (b ∷ blocks) [] a = elim a [ ]
  AllHold-drop (suc n) (b ∷ blocks) (es ∷ ess) a = AllHold-drop n blocks ess a.1

  -- Bounds whose start is at a key: what lies strictly below the key lies below the start.
  module _ (lo : Bound (List ℕ)) (key : List ℕ)
      (below : (k : List ℕ) → bytes_cmp k key ≡ lt → below_start k lo ≡ true) where
    map_below :
        (es : List Entry) (k : List ℕ)
        → is_le (bytes_cmp k key) ≡ true
        → All (λ e. is_lt (bytes_cmp (e.0) k) ≡ true) es
        → All (λ e. below_start (e.0) lo ≡ true) es
    map_below [] k le a = tt
    map_below (e ∷ es) k le a = (below e.0 (lt_of_lt_le e.0 k key a.0 le), map_below es k le a.1)

    block_below :
        (es : List Entry) (b : Block) (blocks : List Block) (ess : List (List Entry)) (i : ℕ)
        → AllHold crc32 lz4 h (b ∷ blocks) ess
        → IsSorted (es ++ flatten ess)
        → partition_point key (b ∷ blocks) ≡ suc i
        → All (λ e. below_start (e.0) lo ≡ true) es
    unfolding partition_point
    block_below es b blocks [] i a s p = elim a [ ]
    block_below es b blocks ([] ∷ ess) i a s p = elim (a.0.2) [ ]
    block_below es b blocks (((k, v) ∷ next) ∷ ess) i a s p =
        elim (Bool-cases (is_le (bytes_cmp b.first_key key))) [
          | inr over ↦ absurd (let zero_ : 0 ≡ suc i = rw over at p in omega arith)
          | inl le ↦ map_below es k (rw (a.0.2) at le) (before-lt es k v (next ++ flatten ess) s)
        ]

    skip_blocks :
        (i : ℕ) (blocks : List Block) (ess : List (List Entry))
        → AllHold crc32 lz4 h blocks ess
        → IsSorted (flatten ess)
        → partition_point key blocks ≡ suc i
        → from_start lo (flatten ess) ≡ from_start lo (flatten (drop i ess))
    unfolding partition_point
    skip_blocks zero blocks ess a s p = refl
    skip_blocks (suc i) [] ess a s p = absurd (omega (arith, p))
    skip_blocks (suc i) (b ∷ blocks) [] a s p = refl
    skip_blocks (suc i) (b ∷ []) (es ∷ ess) a s p =
        elim (Bool-cases (is_le (bytes_cmp b.first_key key))) [
          | inr over ↦ absurd (let zero_ : 0 ≡ suc (suc i) = rw over at p in omega arith)
          | inl le ↦ absurd (let one_ : 1 ≡ suc (suc i) = rw le at p in omega arith)
        ]
    skip_blocks (suc i) (b ∷ b' ∷ blocks) (es ∷ ess) a s p =
        elim (Bool-cases (is_le (bytes_cmp b.first_key key))) [
          | inr over ↦ absurd (let zero_ : 0 ≡ suc (suc i) = rw over at p in omega arith)
          | inl le ↦
              let p' : suc (partition_point key (b' ∷ blocks)) ≡ suc (suc i) = rw le at p in
              let q : partition_point key (b' ∷ blocks) ≡ suc i = omega (arith, p') in
              from_start-append lo es (flatten ess)
              ∙ ap (λ front. front ++ from_start lo (flatten ess))
                  (all_below lo es (block_below es b' blocks ess i a.1 s q))
              ∙ skip_blocks i (b' ∷ blocks) ess a.1 (append-IsSorted_right es (flatten ess) s) q
        ]

    skip_to_block :
        (ess : List (List Entry))
        → AllHold crc32 lz4 h h.blocks ess
        → IsSorted (flatten ess)
        → from_start lo (flatten ess)
          ≡ from_start lo (flatten (drop (unwrap_or (block_for h key) 0) ess))
    unfolding block_for
    skip_to_block ess a s = go (partition_point key h.blocks) refl
      where
        go :
            (n : ℕ)
            → partition_point key h.blocks ≡ n
            → from_start lo (flatten ess)
              ≡ from_start lo (flatten (drop (unwrap_or (checked_pred n) 0) ess))
        go zero p = refl
        go (suc i) p = skip_blocks i h.blocks ess a s p

  skip_lem :
      (lo : Bound (List ℕ)) (ess : List (List Entry))
      → AllHold crc32 lz4 h h.blocks ess
      → IsSorted (flatten ess)
      → from_start lo (flatten ess) ≡ from_start lo (flatten (drop (first_block h lo) ess))
  unfolding first_block
  skip_lem (included k) ess a s =
      skip_to_block (included k) k (λ j l. unfold below_start in ap is_lt l) ess a s
  skip_lem (excluded k) ess a s =
      skip_to_block (excluded k) k (λ j l. unfold below_start in ap is_le l) ess a s
  skip_lem unbounded ess a s = refl

  no_entries :
      (ess : List (List Entry)) (lo hi : Bound (List ℕ))
      → AllHold crc32 lz4 h h.blocks ess
      → is_empty h.blocks ≡ true
      → range (flatten ess) lo hi ≡ []
  no_entries ess lo hi a e = go h.blocks ess a e
    where
      go :
          (blocks : List Block) (ess : List (List Entry))
          → AllHold crc32 lz4 h blocks ess
          → is_empty blocks ≡ true
          → range (flatten ess) lo hi ≡ []
      go [] [] a e = unfold range in refl
      go [] (es ∷ ess) a e = elim a [ ]
      go (b ∷ blocks) ess a e = cc

  module _ (ess : List (List Entry)) (built : IsBuilt crc32 lz4 h ess)
      (lo hi : Bound (List ℕ)) where
    out_of_table :
        (is_empty h.blocks || (ends_below hi h.min_key || starts_past lo h.max_key)) ≡ true
        → range (flatten ess) lo hi ≡ []
    out_of_table e = elim (or-cases (is_empty h.blocks) _ e) [
      | inl empty ↦ no_entries ess lo hi built.blocks empty
      | inr outside ↦ elim (or-cases (ends_below hi h.min_key) _ outside) [
        | inl low ↦
            range_none lo hi (flatten ess)
              (All-past lo hi h.min_key (flatten ess) low built.not_below)
        | inr high ↦
            range_none lo hi (flatten ess)
              (All-before lo hi h.max_key (flatten ess) high built.not_above)
      ]
    ]

    drain-done :
        (fuel n : ℕ)
        → drain crc32 lz4 fuel
            (record { sst = h; next_block = n; buf = []; start = lo; end = hi; done = true })
          ≡ []
    unfolding drain next
    drain-done zero n = refl
    drain-done (suc fuel) n = refl

    -- A cursor over an open table yields, in order, the entries of the table that lie in the range, if
    -- it is asked once more than there are entries.
    pub drain-cursor :
        (fuel : ℕ)
        → length (flatten ess) < fuel
        → drain crc32 lz4 fuel (cursor h lo hi) ≡ all_ok (range (flatten ess) lo hi)
    unfolding cursor
    drain-cursor fuel f =
        elim (Bool-cases
          (is_empty h.blocks || (ends_below hi h.min_key || starts_past lo h.max_key))) [
            | inl empty ↦ rw (empty, out_of_table empty) (drain-done fuel (length h.blocks))
            | inr some_ ↦ rw some_ (
                drain-at_block crc32 lz4 h lo hi fuel (first_block h lo) []
                  (drop (first_block h lo) ess)
                  (AllHold-drop (first_block h lo) h.blocks ess built.blocks)
                  (omega (arith, f, ap length skipped, length-from_start lo (flatten ess)))
                ∙ ap (λ es. all_ok (until_end hi es)) (sym skipped)
                ∙ ap all_ok (until_end-from_start lo hi (flatten ess) built.sorted))
          ]
      where
        skipped :
            from_start lo (flatten ess) ≡ from_start lo (flatten (drop (first_block h lo) ess))
        skipped = skip_lem lo ess built.blocks built.sorted
