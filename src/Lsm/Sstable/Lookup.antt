-- ===== src/Lsm/Sstable/Lookup.antt =====
-- crates/bkndb-storage-lsm/src/sstable/mod.rs: the search of `get` in one block.
use Prim.Native.Nat.{Ordering}
use Prim.Native.Nat.Ordering.{lt, eq, gt}
use bkndb.Prelude.{
  ℕ, zero, suc, ◌+◌, ◌≤◌, ◌≡◌, refl, sym, ap, ◌∙◌, arith, List, [], ◌∷◌, ◌++◌, append_assoc, none,
  some, true, false, All, length, length-append, drop, drop-append, ltb, if◌then◌else◌,
}
use bkndb.Prelude.Order.{bytes_cmp, bytes_ord, bytes_cmp-IsTotal, is_eq, is_le}
use bkndb.Prelude.BTreeMap.{get, get-Above, IsSorted}
use bkndb.Error.{ok}
use bkndb.Lsm.Memtable.{LsmValue}
use bkndb.Lsm.Sstable.{
  encode_entry, encode_value, search_loop, search_block, match_key, to_lsm_value, shift,
}
use bkndb.Lsm.Sstable.Entry.{range_of, decode_entry-encode_entry, length-encode_entry}
use bkndb.Lsm.Sstable.Block.{Entry, EntryFits, encode_entries, to_lsm_value-entry}
open bytes_cmp-IsTotal use {greater_of_less, less_of_greater, same_of_equal, self_equal}

module _ (key : List ℕ) where
  search_loop_lem :
      (fuel : ℕ) (before : List ℕ) (es : List Entry)
      → All EntryFits es
      → IsSorted es
      → length (encode_entries es) ≤ fuel
      → search_loop fuel (before ++ encode_entries es) key (length before) ≡ ok (get es key)
  unfolding search_loop encode_entries get
  search_loop_lem zero before [] fits sorted h = refl
  search_loop_lem zero before ((k, v) ∷ es) fits sorted h =
      absurd (
        omega
          (arith, length-append (encode_entry k v) (encode_entries es), length-encode_entry k v))
  search_loop_lem (suc fuel) before [] fits sorted h =
      let stop : ltb (length before) (length (before ++ [])) ≡ false =
        ground (arith, length-append before []) in
      rw stop
  search_loop_lem (suc fuel) before ((k, v) ∷ es) fits sorted h =
      let whole = before ++ (encode_entry k v ++ encode_entries es) in
      let long : length (encode_entry k v ++ encode_entries es)
          ≡ 4 + length k + length (encode_value v) + length (encode_entries es) =
        omega
          (arith, length-append (encode_entry k v) (encode_entries es), length-encode_entry k v) in
      let more : ltb (length before) (length whole) ≡ true =
        ground (arith, length-append before (encode_entry k v ++ encode_entries es)) in
      let here : drop (length before) whole ≡ encode_entry k v ++ encode_entries es =
        drop-append before _ in
      let rest : search_loop fuel whole key (length before + length (encode_entry k v))
          ≡ ok (get es key) =
        let ih =
          search_loop_lem fuel (before ++ encode_entry k v) es (fits.1) (sorted.1)
            (omega (arith, length-encode_entry k v)) in
        rw
          (
            append_assoc before (encode_entry k v) (encode_entries es),
            length-append before (encode_entry k v),
          )
          at ih in
      rw (more, here, decode_entry-encode_entry k (encode_entries es) v (fits.0.0) (fits.0.1), rest)
        (go (bytes_cmp k key) refl)
    where
      go :
          (c : Ordering)
          → bytes_cmp k key ≡ c
          → match_key c
              (to_lsm_value
                (before ++ (encode_entry k v ++ encode_entries es))
                (shift (length before) (range_of k v)))
              (ok (get es key))
            ≡ ok (if is_eq (bytes_cmp key k) then some v else get es key)
      go eq e =
          let same : bytes_cmp key k ≡ eq =
            ap (λ x. bytes_cmp x k) (sym (same_of_equal k key e)) ∙ self_equal k in
          rw same
            (ap (λ (w : LsmValue). ok (some w)) (to_lsm_value-entry before k v (encode_entries es)))
      go gt e =
          let less : bytes_cmp key k ≡ lt = less_of_greater k key e in
          let gone : get es key ≡ none = get-Above k key es (ap is_le less) (sorted.0) in
          rw (less, gone)
      go lt e = rw (greater_of_less k key e)

  -- The search of a block that was built from entries in ascending order finds the value of a key
  -- exactly if an entry has that key, when every key and value is shorter than 2^32 bytes.
  pub search_block-encode_entries :
      (es : List Entry)
      → All EntryFits es
      → IsSorted es
      → search_block (encode_entries es) key ≡ ok (get es key)
  unfolding search_block
  search_block-encode_entries es fits sorted =
      search_loop_lem (length (encode_entries es)) [] es fits sorted (omega arith)
