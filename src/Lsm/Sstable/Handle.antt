-- ===== src/Lsm/Sstable/Handle.antt =====
-- crates/bkndb-storage-lsm/src/sstable/mod.rs: a point lookup in an open SSTable.
pub mod Runs
pub mod Get
use bkndb.Prelude.{
  ℕ, zero, suc, ◌+◌, List, [], ◌∷◌, Bool, true, false, not, ◌&&◌, ◌||◌, Option, none, some,
  get_elem?, ◌==◌, if◌then◌else◌,
}
use bkndb.Prelude.Order.{bytes_cmp, is_lt, is_le}
use bkndb.Prelude.Slices.{get_range}
use bkndb.Error.{Result, ok, err, ◌>>=◌, corruption}
use bkndb.Lsm.Codec.{Crc32, Lz4}
use bkndb.Lsm.Memtable.{LsmValue}
use bkndb.Lsm.Bloom.{BloomFilter, might_contain}
use bkndb.Lsm.Sstable.{or_corrupt, search_block}

pub record Block : Type 0 where
  pub first_key : List ℕ
  pub offset : ℕ
  pub stored_len : ℕ
  pub raw_len : ℕ
  pub compressed : Bool
  pub crc : Option ℕ

-- `mmap` is the whole container file.
pub record SstableHandle : Type 0 where
  pub mmap : List ℕ
  pub base_offset : ℕ
  pub blob_len : ℕ
  pub bloom : BloomFilter
  pub blocks : List Block
  pub entry_count : Option ℕ
  pub min_key : List ℕ
  pub max_key : List ℕ
  pub generation : ℕ

-- `self.blocks.partition_point(|b| b.first_key <= key)`: how many blocks at the front begin at the
-- key or below it.
unfoldable pub partition_point : List ℕ → List Block → ℕ
partition_point key [] = 0
partition_point key (b ∷ blocks) =
    let rest = partition_point key blocks in
    if is_le (bytes_cmp b.first_key key) then suc rest else 0

abbrev pub checked_pred : ℕ → Option ℕ
checked_pred zero = none
checked_pred (suc n) = some n

unfoldable pub block_for : SstableHandle → List ℕ → Option ℕ
block_for h key = checked_pred (partition_point key h.blocks)

abbrev pub is_empty : List Block → Bool
is_empty [] = true
is_empty (b ∷ blocks) = false

module _ (crc32 : Crc32) (lz4 : Lz4) where
  -- `b.crc.is_some_and(|crc| crc32fast::hash(stored) != crc)`
  unfoldable pub wrong_crc : Option ℕ → List ℕ → Bool
  wrong_crc none stored = false
  wrong_crc (some crc) stored = not (crc32.hash stored == crc)

  unfoldable pub read_block : SstableHandle → Block → Result (List ℕ)
  read_block h b =
      or_corrupt (get_range (h.base_offset + b.offset) b.stored_len h.mmap) >>= λ stored.
      if wrong_crc b.crc stored
      then err corruption
      else if b.compressed
      then or_corrupt (lz4.decompress stored b.raw_len)
      else ok stored

  -- A block number past the end, where the code panics, is an error; `block_for` gives none.
  unfoldable pub block_bytes : SstableHandle → ℕ → Result (List ℕ)
  block_bytes h i = or_corrupt (get_elem? h.blocks i) >>= λ b. read_block h b

  unfoldable pub get : SstableHandle → List ℕ → Result (Option LsmValue)
  get h key =
      if is_empty h.blocks
        || (is_lt (bytes_cmp key h.min_key) || not (is_le (bytes_cmp key h.max_key)))
      then ok none
      else if not (might_contain h.bloom key)
      then ok none
      else elim (block_for h key) [
        | none ↦ ok none
        | some i ↦ block_bytes h i >>= λ block. search_block block key
      ]
