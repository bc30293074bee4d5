-- ===== src/Lsm/Sstable/Handle/Get.antt =====
-- crates/bkndb-storage-lsm/src/sstable/mod.rs: a lookup finds what the blocks hold.
use Prim.Native.Nat.Ordering.{lt}
use bkndb.Prelude.{
  ℕ, zero, suc, ◌≡◌, refl, sym, ap, ◌∙◌, arith, List, [], ◌∷◌, ◌++◌, Bool, true, false, not, ◌||◌,
  none, some, All, get_elem?, inl, inr, Bool-cases,
}
use bkndb.Prelude.Order.{bytes_cmp, bytes_ord, is_lt, is_le}
use bkndb.Prelude.BTreeMap
use bkndb.Prelude.BTreeMap.{IsSorted, Above, get-Above}
use bkndb.Error.{ok, ◌>>=◌}
use bkndb.Lsm.Codec.{Crc32, Lz4}
use bkndb.Prelude.{or_else, or_else-none}
use bkndb.Lsm.Bloom.{might_contain}
use bkndb.Lsm.Sstable.{search_block}
use bkndb.Lsm.Sstable.Block.{Entry, EntryFits, encode_entries}
use bkndb.Lsm.Sstable.Lookup.{search_block-encode_entries}
use bkndb.Lsm.Sstable.Handle.{
  Block, SstableHandle, partition_point, block_for, read_block, block_bytes, checked_pred, is_empty,
  get,
}
use bkndb.Lsm.Sstable.Handle.Runs.{
  flatten, get-of_failed_test, get-append, before-lt, append-IsSorted_left, append-IsSorted_right,
  is_lt_of_le, lt_of_not_le, FirstKey, or-cases,
}

module _ (crc32 : Crc32) (lz4 : Lz4) (h : SstableHandle) where
  -- The block reads as the entries, which begin at its first key.
  abbrev pub Holds : Block → List Entry → Type 0
  Holds b es =
      (read_block crc32 lz4 h b ≡ ok (encode_entries es))
      × All EntryFits es
      × FirstKey b.first_key es

  abbrev pub AllHold : List Block → List (List Entry) → Type 0
  AllHold [] [] = Unit
  AllHold (b ∷ blocks) (es ∷ ess) = Holds b es × AllHold blocks ess
  AllHold _ _ = ⊥

  module _ (key : List ℕ) where
    -- What the number of blocks at or below the key says of the key.
    abbrev Chosen : List Block → List (List Entry) → ℕ → Type 0
    Chosen blocks ess zero = BTreeMap.get (flatten ess) key ≡ none
    Chosen blocks ess (suc i) =
        (b : Block) × (es : List Entry) × (get_elem? blocks i ≡ some b)
        × Holds b es
        × IsSorted es
        × (BTreeMap.get (flatten ess) key ≡ BTreeMap.get es key)

    -- A key at or above the next block is not in an earlier one.
    earlier :
        (es : List Entry) (blocks : List Block) (ess : List (List Entry)) (i : ℕ)
        → AllHold blocks ess
        → IsSorted (es ++ flatten ess)
        → partition_point key blocks ≡ suc i
        → BTreeMap.get es key ≡ none
    unfolding partition_point
    earlier es [] ess i a s e = absurd (omega arith)
    earlier es (b ∷ blocks) [] i a s e = elim a [ ]
    earlier es (b ∷ blocks) ([] ∷ ess) i a s e = elim (a.0.2) [ ]
    earlier es (b ∷ blocks) (((k, v) ∷ next) ∷ ess) i a s e =
        elim (Bool-cases (is_le (bytes_cmp b.first_key key))) [
          | inr no_ ↦ absurd (let zero_ : 0 ≡ suc i = rw no_ at e in omega arith)
          | inl le ↦
              get-of_failed_test (λ x. is_lt (bytes_cmp x k)) es key
                (before-lt es k v (next ++ flatten ess) s) (is_lt_of_le k key (rw (a.0.2) at le))
        ]

    choose :
        (blocks : List Block) (ess : List (List Entry))
        → AllHold blocks ess
        → IsSorted (flatten ess)
        → Chosen blocks ess (partition_point key blocks)
    unfolding partition_point
    choose [] [] a s = unfold BTreeMap.get in refl
    choose [] (es ∷ ess) a s = elim a [ ]
    choose (b ∷ blocks) [] a s = elim a [ ]
    choose (b ∷ blocks) ([] ∷ ess) a s = elim (a.0.2) [ ]
    choose (b ∷ blocks) (((k, v) ∷ es) ∷ ess) a s =
        elim (Bool-cases (is_le (bytes_cmp b.first_key key))) [
          | inl le ↦ rw le (
              go (partition_point key blocks) refl
                (choose blocks ess a.1 (append-IsSorted_right ((k, v) ∷ es) (flatten ess) s)))
          | inr above ↦ rw above (below_all (lt_of_not_le k key (rw (a.0.2) at above)))
        ]
      where
        own : List Entry
        own = (k, v) ∷ es

        below_all : bytes_cmp key k ≡ lt → BTreeMap.get (own ++ flatten ess) key ≡ none
        below_all less =
            let rest : BTreeMap.get (es ++ flatten ess) key ≡ none =
              get-Above k key (es ++ flatten ess) (ap is_le less) (s.0) in
            unfold BTreeMap.get in rw (less, rest)

        go :
            (n : ℕ)
            → partition_point key blocks ≡ n
            → Chosen blocks ess n
            → Chosen (b ∷ blocks) (own ∷ ess) (suc n)
        go zero e gone = (
          b,
          own,
          refl,
          a.0,
          append-IsSorted_left own (flatten ess) s,
          get-append own (flatten ess) key ∙ rw gone (or_else-none (BTreeMap.get own key)),
        )
        go (suc i) e c = (
          c.0,
          c.1,
          c.2,
          c.3,
          c.4,
          get-append own (flatten ess) key
              ∙ rw (earlier own blocks ess i a.1 s e) (unfold or_else in c.5),
        )

  -- An open table over entry lists, one for each block: every block reads as its list, the lists
  -- ascend throughout, no key is denied by the filter or lies outside of the recorded range.
  pub record IsBuilt (ess : List (List Entry)) : Type 0 where
    pub blocks : AllHold h.blocks ess
    pub sorted : IsSorted (flatten ess)
    pub reported : All (λ e. might_contain h.bloom (e.0) ≡ true) (flatten ess)
    pub not_below : All (λ e. not (is_lt (bytes_cmp (e.0) h.min_key)) ≡ true) (flatten ess)
    pub not_above : All (λ e. is_le (bytes_cmp (e.0) h.max_key) ≡ true) (flatten ess)

  no_blocks :
      (blocks : List Block) (ess : List (List Entry)) (key : List ℕ)
      → AllHold blocks ess
      → is_empty blocks ≡ true
      → BTreeMap.get (flatten ess) key ≡ none
  no_blocks [] [] key a e = unfold BTreeMap.get in refl
  no_blocks [] (es ∷ ess) key a e = elim a [ ]
  no_blocks (b ∷ blocks) ess key a e = cc

  module _ (ess : List (List Entry)) (built : IsBuilt ess) (key : List ℕ) where
    skipped :
        (is_empty h.blocks
            || (is_lt (bytes_cmp key h.min_key) || not (is_le (bytes_cmp key h.max_key))))
          ≡ true
        → BTreeMap.get (flatten ess) key ≡ none
    skipped e = elim (or-cases (is_empty h.blocks) _ e) [
      | inl empty ↦ no_blocks h.blocks ess key built.blocks empty
      | inr outside ↦ elim (or-cases (is_lt (bytes_cmp key h.min_key)) _ outside) [
        | inl low ↦
            get-of_failed_test (λ x. not (is_lt (bytes_cmp x h.min_key))) (flatten ess) key
              built.not_below (ap not low)
        | inr high ↦
            get-of_failed_test (λ x. is_le (bytes_cmp x h.max_key)) (flatten ess) key
              built.not_above (sym (not_not (is_le (bytes_cmp key h.max_key))) ∙ ap not high)
      ]
    ]
      where
        not_not : (c : Bool) → not (not c) ≡ c
        not_not true = refl
        not_not false = refl

    searched :
        (n : ℕ)
        → Chosen key h.blocks ess n
        → (elim (checked_pred n) [
          | none ↦ ok none
          | some i ↦ block_bytes crc32 lz4 h i >>= λ block. search_block block key
        ])
          ≡ ok (BTreeMap.get (flatten ess) key)
    searched zero gone = rw gone
    searched (suc i) c =
        let read : block_bytes crc32 lz4 h i ≡ ok (encode_entries (c.1)) =
          unfold block_bytes in rw (c.2) (c.3.0) in
        rw (read, search_block-encode_entries key (c.1) (c.3.1) (c.4), c.5)

    -- A lookup in an open table returns the value, or the tombstone, that its entries hold under the
    -- key, and nothing if no entry has the key: the range, the filter and the choice of the block skip
    -- nothing that is there.
    pub get_lem : get crc32 lz4 h key ≡ ok (BTreeMap.get (flatten ess) key)
    unfolding get block_for
    get_lem =
        elim (Bool-cases (
          is_empty h.blocks
          || (is_lt (bytes_cmp key h.min_key) || not (is_le (bytes_cmp key h.max_key))))) [
            | inl skip ↦ rw (skip, skipped skip)
            | inr inside ↦ elim (Bool-cases (might_contain h.bloom key)) [
              | inr denied ↦ rw (
                inside,
                denied,
                get-of_failed_test (might_contain h.bloom) (flatten ess) key built.reported denied,
              )
              | inl reported ↦
                  rw (inside, reported)
                    (searched (partition_point key h.blocks)
                      (choose key h.blocks ess built.blocks built.sorted))
            ]
          ]
