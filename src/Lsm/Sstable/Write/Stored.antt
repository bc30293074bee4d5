-- ===== src/Lsm/Sstable/Write/Stored.antt =====
-- crates/bkndb-storage-lsm/src/sstable: the blocks of a writer, read through an open table.
use bkndb.Prelude.{
  ℕ, ◌+◌, ◌≡◌, refl, ap, ◌∙◌, arith, List, [], ◌∷◌, ◌++◌, true, false, some, length, length-append,
  leb, if◌then◌else◌, Bool-cases, inl, inr,
}
use bkndb.Prelude.Order.{bytes_ord}
use bkndb.Prelude.Slices.{get_range, slice_skip}
use bkndb.Error.{ok}
use bkndb.Lsm.Codec.{Crc32, Lz4}
use bkndb.Lsm.Memtable.{Entry}
use bkndb.Lsm.Sstable.{or_corrupt}
use bkndb.Lsm.Sstable.Block.{encode_entries}
use bkndb.Lsm.Sstable.Handle.{SstableHandle, read_block, wrong_crc}
use bkndb.Lsm.Sstable.Handle.Get.{AllHold, Holds}
use bkndb.Lsm.Sstable.Writer.{BlockMeta, block_of}
use bkndb.Lsm.Sstable.Writer.Blocks.{Stored, AllStored, unpacked, get_range_more}
use bkndb.Lsm.Sstable.Write.{map_blocks}

module _ {ℓ} {A : Type ℓ} where
  pub get_range_skip :
      (pre xs : List A) (at len : ℕ) (part : List A)
      → get_range at len xs ≡ some part
      → get_range (length pre + at) len (pre ++ xs) ≡ some part
  get_range_skip pre xs at len part h = elim (Bool-cases (leb (at + len) (length xs))) [
    | inr e ↦ absurd (cc (rw e at h))
    | inl e ↦
        let room : leb (length pre + at + len) (length (pre ++ xs)) ≡ true =
          ground (arith, length-append pre xs) in
        rw room (ap some (slice_skip (length pre) at len pre xs refl) ∙ rw e at h)
  ]

right_crc :
    (crc32 : Crc32) (lz4 : Lz4) (crc : ℕ) (stored : List ℕ)
    → crc ≡ crc32.hash stored
    → wrong_crc crc32 lz4 (some crc) stored ≡ false
unfolding wrong_crc
right_crc crc32 lz4 crc stored h = ground (arith, h)

unpack :
    (lz4 : Lz4) (m : BlockMeta) (stored raw : List ℕ)
    → unpacked lz4 m stored ≡ some raw
    → (if m.compressed then or_corrupt (lz4.decompress stored m.raw_len) else ok stored) ≡ ok raw
unpack lz4 m stored raw h = elim (Bool-cases m.compressed) [
  | inl e ↦ rw e (ap or_corrupt (rw e at h))
  | inr e ↦ rw e (ap or_corrupt (rw e at h))
]

module _ (crc32 : Crc32) (lz4 : Lz4) (h : SstableHandle) (pre out tail : List ℕ)
    (mapped : h.mmap ≡ pre ++ (out ++ tail)) (base : h.base_offset ≡ length pre) where
  found :
      (m : BlockMeta) (stored : List ℕ)
      → get_range m.offset m.stored_len out ≡ some stored
      → get_range (h.base_offset + m.offset) m.stored_len h.mmap ≡ some stored
  found m stored at =
      rw (mapped, base)
        (get_range_skip pre (out ++ tail) m.offset m.stored_len stored
          (get_range_more m.offset m.stored_len out tail stored at))

  read-block_of :
      (m : BlockMeta) (es : List Entry)
      → Stored crc32 lz4 out m es
      → read_block crc32 lz4 h (block_of m) ≡ ok (encode_entries es)
  unfolding read_block block_of
  read-block_of m es (stored, at, crc, raw, fits, first) =
      rw (found m stored at, right_crc crc32 lz4 m.crc stored crc)
        (unpack lz4 m stored (encode_entries es) raw)

  block-Holds :
      (m : BlockMeta) (es : List Entry)
      → Stored crc32 lz4 out m es
      → Holds crc32 lz4 h (block_of m) es
  block-Holds m es s =
      let (stored, at, crc, raw, fits, first) = s in
      (read-block_of m es s, fits, unfold block_of in first)

  pub blocks-AllHold :
      (ms : List BlockMeta) (ess : List (List Entry))
      → AllStored crc32 lz4 out ms ess
      → AllHold crc32 lz4 h (map_blocks ms) ess
  blocks-AllHold [] [] a = tt
  blocks-AllHold [] (es ∷ ess) a = elim a [ ]
  blocks-AllHold (m ∷ ms) [] a = elim a [ ]
  blocks-AllHold (m ∷ ms) (es ∷ ess) a = (block-Holds m es a.0, blocks-AllHold ms ess a.1)
