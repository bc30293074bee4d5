-- ===== src/Lsm/Sstable/Write/Built.antt =====
-- crates/bkndb-storage-lsm/src/sstable/mod.rs: a table that was written holds its entries.
use mathlib.Core.Path.{subst}
use bkndb.Prelude.{
  ℕ, ◌+◌, ◌≡◌, refl, sym, ap, ◌∙◌, List, [], ◌∷◌, ◌++◌, true, not, some, All, length,
}
use bkndb.Prelude.Order.{bytes_cmp, bytes_ord, is_lt, is_le}
use bkndb.Prelude.BTreeMap
use bkndb.Prelude.BTreeMap.{IsSorted}
use bkndb.Error.{ok, bind-eq-ok}
use bkndb.Lsm.Memtable.{Entry}
use bkndb.Lsm.Merge.Heads.{all_ok}
use bkndb.Lsm.Bloom.{might_contain}
use bkndb.Lsm.Bloom.NoFalseNegatives.{insert_all, might_contain-insert_all}
use bkndb.Lsm.Sstable.Block.{EntryFits, encode_entries}
use bkndb.Lsm.Sstable.Handle.{SstableHandle, get}
use bkndb.Lsm.Sstable.Handle.Runs.{flatten}
use bkndb.Lsm.Sstable.Handle.Get.{IsBuilt, get_lem}
use bkndb.Lsm.Sstable.Writer.{WriteOptions, BlockWriter, finish_block, unwrap_or}
use bkndb.Lsm.Sstable.Writer.Blocks.{IsWriting}
use bkndb.Lsm.Sstable.Writer.Steps.{finish_block-IsWriting}
use bkndb.Lsm.Sstable.Write.{
  Crates, WriteState, map_blocks, write_entries, start_state, empty_filter, index_of, meta_section,
  footer_v2_len, write,
}
use bkndb.Lsm.Sstable.Write.Range.{first_key, first_not_below, last_not_above}
use bkndb.Lsm.Sstable.Write.Stored.{blocks-AllHold}
use bkndb.Lsm.Sstable.Write.Entries.{IsWritten, keys_of, All-keys_of, write_entries-IsWritten}

module _ (c : Crates) (file : List ℕ) (generation expected_items : ℕ) (opts : WriteOptions) where
  abbrev table_of : WriteState → BlockWriter → List ℕ × SstableHandle
  table_of st w =
      let file' = file ++ (w.out ++ meta_section c st.bloom (index_of st w) w.offset) in
      (
        file',
        record {
          mmap = file';
          base_offset = length file;
          blob_len =
              w.offset
              + length (c.bloom_code.serialize st.bloom)
              + length (c.index_code.serialize (index_of st w))
              + footer_v2_len;
          bloom = st.bloom;
          blocks = map_blocks w.blocks;
          entry_count = some st.entry_count;
          min_key = unwrap_or st.min_key [];
          max_key = st.max_key;
          generation = generation;
        },
      )

  started : IsWritten c (empty_filter c expected_items) (start_state c expected_items opts) []
  unfolding start_state
  started = record {
    bloom = refl;
    min_key = refl;
    max_key = refl;
    entry_count = refl;
    writer = (
      [],
      [],
      record {
        closed = tt;
        end = refl;
        waiting = unfold encode_entries in refl;
        fits = tt;
        first = tt;
      },
      refl,
    );
  }

  -- The last states of a `write` that succeeds.
  pub written :
      (es : List Entry) (t : List ℕ × SstableHandle)
      → write c file generation (all_ok es) expected_items opts ≡ ok t
      → All EntryFits es
      → (st : WriteState) × (w : BlockWriter) × IsWritten c (empty_filter c expected_items) st es
        × ((ess : List (List Entry)) × IsWriting c.crc32 c.lz4 w ess [] × (flatten ess ≡ es))
        × (t ≡ table_of st w)
  unfolding write
  written es t h fits =
      let (st, entered, h') =
        bind-eq-ok (write_entries c (all_ok es) (start_state c expected_items opts)) _ h in
      let (w, finished, h'') = bind-eq-ok (finish_block c.crc32 c.lz4 st.w) _ h' in
      let i =
        write_entries-IsWritten c (empty_filter c expected_items) es
          (start_state c expected_items opts) st [] entered fits started in
      let (ess, waiting, wr, e) = i.writer in
      let (ess', done, e') = finish_block-IsWriting c.crc32 c.lz4 st.w w ess waiting finished wr in
      (st, w, i, (ess', done, e' ∙ e), cc)

  pub write-IsBuilt :
      (es : List Entry) (file' : List ℕ) (h : SstableHandle)
      → write c file generation (all_ok es) expected_items opts ≡ ok (file', h)
      → All EntryFits es
      → IsSorted es
      → (ess : List (List Entry)) × IsBuilt c.crc32 c.lz4 h ess × (flatten ess ≡ es)
  write-IsBuilt es file' h wrote fits s =
      let (st, w, i, (ess, done, e), same) = written es (file', h) wrote fits in
      let built : IsBuilt c.crc32 c.lz4 (table_of st w).1 ess = record {
        blocks =
            blocks-AllHold c.crc32 c.lz4 (table_of st w).1 file w.out
              (meta_section c st.bloom (index_of st w) w.offset) refl refl w.blocks ess done.closed;
        sorted = subst IsSorted (sym e) s;
        reported = rw e (
            subst (λ f. All (λ e. might_contain f (e.0) ≡ true) es) (sym i.bloom)
              (All-keys_of
                (λ k.
                  might_contain (insert_all (empty_filter c expected_items) (keys_of es)) k ≡ true)
                es (might_contain-insert_all _ _ (keys_of es))));
        not_below = rw e (
            subst (λ m. All (λ e. not (is_lt (bytes_cmp (e.0) (unwrap_or m []))) ≡ true) es)
              (sym i.min_key) (least es s));
        not_above = rw e (
            subst (λ m. All (λ e. is_le (bytes_cmp (e.0) m) ≡ true) es) (sym i.max_key)
              (last_not_above [] es s));
      } in
      (
        ess,
        subst (λ t. IsBuilt c.crc32 c.lz4 t ess)
            (ap (λ (t : List ℕ × SstableHandle). t.1) (sym same)) built,
        e,
      )
    where
      least :
          (es : List Entry)
          → IsSorted es
          → All (λ e. not (is_lt (bytes_cmp (e.0) (unwrap_or (first_key es) []))) ≡ true) es
      least [] s = tt
      least ((k, v) ∷ es) s = first_not_below k v es s

  -- What is looked up in a table whose write succeeded, with keys and values shorter than 2^32
  -- bytes and ascending, is what its entries hold.
  pub get-write :
      (es : List Entry) (file' : List ℕ) (h : SstableHandle) (key : List ℕ)
      → write c file generation (all_ok es) expected_items opts ≡ ok (file', h)
      → All EntryFits es
      → IsSorted es
      → get c.crc32 c.lz4 h key ≡ ok (BTreeMap.get es key)
  get-write es file' h key wrote fits s =
      let (ess, built, e) = write-IsBuilt es file' h wrote fits s in
      get_lem c.crc32 c.lz4 h ess built key ∙ ap (λ l. ok (BTreeMap.get l key)) e
