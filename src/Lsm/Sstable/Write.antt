-- ===== src/Lsm/Sstable/Write.antt =====
-- crates/bkndb-storage-lsm/src/sstable/mod.rs: `SstableHandle::write`. The container file is the list
-- of its bytes, and the writes of the operating system do not fail.
pub mod Range
pub mod Stored
pub mod Entries
pub mod Built
use Prim.Native.Nat.{max}
use bkndb.Prelude.{ℕ, zero, suc, ◌+◌, List, [], ◌∷◌, ◌++◌, Option, none, some, true, length}
use bkndb.Prelude.BigEndian.{to_be}
use bkndb.Error.{Result, ok, err, ◌>>=◌}
use bkndb.Lsm.Codec.{Bincode, Crc32, Lz4}
use bkndb.Lsm.Memtable.{LsmValue}
use bkndb.Lsm.Merge.{EntryIter}
use bkndb.Lsm.Bloom.{BloomFilter, new, insert}
use bkndb.Lsm.Sstable.Handle.{Block, SstableHandle}
use bkndb.Lsm.Sstable.Writer.{
  WriteOptions, BlockMeta, BlockWriter, block_of, finish_block, push, unwrap_or,
}

pub record IndexV2 : Type 0 where
  pub min_key : List ℕ
  pub max_key : List ℕ
  pub entry_count : ℕ
  pub blocks : List BlockMeta

abbrev pub LegacyIndex : Type 0
LegacyIndex = List ℕ × List ℕ × List (List ℕ × ℕ)

-- What a table takes from other crates, and the two sizes of a filter that are computed in floats.
pub record Crates : Type 0 where
  pub crc32 : Crc32
  pub lz4 : Lz4
  pub bloom_code : Bincode BloomFilter
  pub index_code : Bincode IndexV2
  pub legacy_code : Bincode LegacyIndex
  pub bloom_m : ℕ → ℕ
  pub bloom_k : ℕ → ℕ → ℕ

abbrev pub footer_v2_len : ℕ
footer_v2_len = 40

-- b"BKNSST02"
abbrev pub magic_v2 : List ℕ
magic_v2 = 0x42 ∷ 0x4b ∷ 0x4e ∷ 0x53 ∷ 0x53 ∷ 0x54 ∷ 0x30 ∷ 0x32 ∷ []

abbrev pub map_blocks : List BlockMeta → List Block
map_blocks [] = []
map_blocks (m ∷ ms) = block_of m ∷ map_blocks ms

-- What the loop over the entries changes.
pub record WriteState : Type 0 where
  pub bloom : BloomFilter
  pub min_key : Option (List ℕ)
  pub max_key : List ℕ
  pub entry_count : ℕ
  pub w : BlockWriter

unfoldable pub footer : ℕ → ℕ → ℕ → ℕ → List ℕ
footer bloom_offset index_offset index_len meta_crc =
    to_be 8 bloom_offset
    ++ (to_be 8 index_offset
        ++ (to_be 8 index_len ++ (to_be 4 meta_crc ++ (to_be 4 0 ++ magic_v2))))

abbrev pub index_of : WriteState → BlockWriter → IndexV2
index_of st w = record {
  min_key = unwrap_or st.min_key [];
  max_key = st.max_key;
  entry_count = st.entry_count;
  blocks = w.blocks;
}

module _ (c : Crates) where
  -- `debug_assert!` is not in a release build.
  unfoldable pub write_entry : WriteState → List ℕ → LsmValue → Result WriteState
  write_entry st key v = push c.crc32 c.lz4 st.w key v >>= λ w. ok (record {
    bloom = insert st.bloom key;
    min_key = some (unwrap_or st.min_key key);
    max_key = key;
    entry_count = st.entry_count + 1;
    w = w;
  })

  unfoldable pub write_entries : EntryIter → WriteState → Result WriteState
  write_entries [] st = ok st
  write_entries (err e ∷ entries) st = err e
  write_entries (ok (key, v) ∷ entries) st =
      write_entry st key v >>= λ st'. write_entries entries st'

  abbrev pub empty_filter : ℕ → BloomFilter
  empty_filter expected_items = let n = max expected_items 1 in new (c.bloom_m n) (c.bloom_k n)

  unfoldable pub start_state : ℕ → WriteOptions → WriteState
  start_state expected_items opts = record {
    bloom = empty_filter expected_items;
    min_key = none;
    max_key = [];
    entry_count = 0;
    w = record { out = []; opts = opts; raw = []; first_key = []; offset = 0; blocks = [] };
  }

  -- The filter, the index and the footer, behind the blocks.
  unfoldable pub meta_section : BloomFilter → IndexV2 → ℕ → List ℕ
  meta_section bloom index bloom_offset =
      let bloom_bytes = c.bloom_code.serialize bloom in
      let index_bytes = c.index_code.serialize index in
      (bloom_bytes ++ index_bytes)
      ++ footer bloom_offset (bloom_offset + length bloom_bytes) (length index_bytes)
          (c.crc32.hash (bloom_bytes ++ index_bytes))

  -- The file with the table behind it, and the open table.
  unfoldable pub write : List ℕ → ℕ → EntryIter → ℕ → WriteOptions → Result (List ℕ × SstableHandle)
  write file generation entries expected_items opts =
      write_entries entries (start_state expected_items opts) >>= λ st.
      finish_block c.crc32 c.lz4 st.w >>= λ w.
      let index = index_of st w in
      let file' = file ++ (w.out ++ meta_section st.bloom index w.offset) in
      ok (
        file',
        record {
          mmap = file';
          base_offset = length file;
          blob_len =
              w.offset
              + length (c.bloom_code.serialize st.bloom)
              + length (c.index_code.serialize index)
              + footer_v2_len;
          bloom = st.bloom;
          blocks = map_blocks w.blocks;
          entry_count = some st.entry_count;
          min_key = index.min_key;
          max_key = index.max_key;
          generation = generation;
        },
      )
