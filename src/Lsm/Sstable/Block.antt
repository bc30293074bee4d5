-- ===== src/Lsm/Sstable/Block.antt =====
-- crates/bkndb-storage-lsm/src/sstable/cursor.rs: a cursor reads back the entries of a block.
use native.Mathlib.Nat.{add_comm}
use bkndb.Prelude.{
  ℕ, zero, suc, ◌+◌, ◌-◌, ◌<◌, ◌≤◌, ◌^◌, ◌≡◌, refl, ap, ◌∙◌, arith, List, [], ◌∷◌, ◌++◌,
  append_assoc, true, false, All, length, length-append, drop, drop-append, drop_add, ltb,
  if◌then◌else◌,
}
use bkndb.Prelude.BTreeMap.{Bound}
use bkndb.Error.{ok}
pub use bkndb.Lsm.Memtable.{Entry}
use bkndb.Lsm.Memtable.{LsmValue, value, tombstone}
use bkndb.Lsm.Sstable.{
  encode_entry, encode_value, load_loop, load_block, below_start, to_lsm_value, shift,
}
use bkndb.Lsm.Sstable.Entry.{
  Fits, range_of, decode_entry-encode_entry, value_slice, length-encode_entry,
}

-- What `push` has put into `raw` after a run of entries.
unfoldable pub encode_entries : List Entry → List ℕ
encode_entries [] = []
encode_entries ((key, v) ∷ es) = encode_entry key v ++ encode_entries es

abbrev pub EntryFits : Entry → Type 0
EntryFits e = (length (e.0) < 2 ^ 32) × Fits (e.1)

-- The entries from the start of the range on.
unfoldable pub from_start : Bound (List ℕ) → List Entry → List Entry
from_start start [] = []
from_start start (e ∷ es) =
    if below_start (e.0) start then from_start start es else e ∷ from_start start es

-- An entry's value is found in the block that holds it.
pub to_lsm_value-entry :
    (before key : List ℕ) (v : LsmValue) (rest : List ℕ)
    → to_lsm_value (before ++ (encode_entry key v ++ rest)) (shift (length before) (range_of key v))
      ≡ v
unfolding to_lsm_value
to_lsm_value-entry before key tombstone rest = refl
to_lsm_value-entry before key (value bytes) rest =
    let whole = before ++ (encode_entry key (value bytes) ++ rest) in
    let len : length key + 9 + length bytes + length before - (length key + 9 + length before)
        ≡ length bytes =
      omega arith in
    let at : drop (length key + 9 + length before) whole
        ≡ drop (length key + 9) (encode_entry key (value bytes) ++ rest) =
      ap (λ n. drop n whole) (add_comm (length key + 9) (length before))
      ∙ drop_add (length before) (length key + 9) whole
      ∙ ap (drop (length key + 9)) (drop-append before (encode_entry key (value bytes) ++ rest)) in
    ap value (rw (len, at) (value_slice key rest bytes))

module _ (start : Bound (List ℕ)) where
  load_loop_lem :
      (fuel : ℕ) (before : List ℕ) (es : List Entry)
      → All EntryFits es
      → length (encode_entries es) ≤ fuel
      → load_loop fuel (before ++ encode_entries es) start (length before)
        ≡ ok (from_start start es)
  unfolding load_loop encode_entries from_start
  load_loop_lem zero before [] fits h = refl
  load_loop_lem zero before ((key, v) ∷ es) fits h = absurd (
      omega
        (arith, length-append (encode_entry key v) (encode_entries es), length-encode_entry key v))
  load_loop_lem (suc fuel) before [] fits h =
      let stop : ltb (length before) (length (before ++ [])) ≡ false =
        ground (arith, length-append before []) in
      rw stop
  load_loop_lem (suc fuel) before ((key, v) ∷ es) fits h =
      let whole = before ++ (encode_entry key v ++ encode_entries es) in
      let long : length (encode_entry key v ++ encode_entries es)
          ≡ 4 + length key + length (encode_value v) + length (encode_entries es) =
        omega (
          arith,
          length-append (encode_entry key v) (encode_entries es),
          length-encode_entry key v,
        ) in
      let more : ltb (length before) (length whole) ≡ true =
        ground (arith, length-append before (encode_entry key v ++ encode_entries es)) in
      let here : drop (length before) whole ≡ encode_entry key v ++ encode_entries es =
        drop-append before _ in
      let rest : load_loop fuel whole start (length before + length (encode_entry key v))
          ≡ ok (from_start start es) =
        let ih =
          load_loop_lem fuel (before ++ encode_entry key v) es (fits.1)
            (omega (arith, length-encode_entry key v)) in
        rw
          (
            append_assoc before (encode_entry key v) (encode_entries es),
            length-append before (encode_entry key v),
          )
          at ih in
      rw
        (
          more,
          here,
          decode_entry-encode_entry key (encode_entries es) v (fits.0.0) (fits.0.1),
          rest,
        )
        (ap
          (λ (w : LsmValue).
            ok (
              if below_start key start
              then from_start start es
              else (key, w) ∷ from_start start es))
          (to_lsm_value-entry before key v (encode_entries es)))

  -- A cursor reads from a block that was built from entries those that are not below its start, in
  -- order and with their values, when every key and value is shorter than 2^32 bytes.
  pub load_block-encode_entries :
      (es : List Entry)
      → All EntryFits es
      → load_block (encode_entries es) start ≡ ok (from_start start es)
  unfolding load_block
  load_block-encode_entries es fits =
      load_loop_lem (length (encode_entries es)) [] es fits (omega arith)
