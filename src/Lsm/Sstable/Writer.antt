-- ===== src/Lsm/Sstable/Writer.antt =====
-- crates/bkndb-storage-lsm/src/sstable/format.rs and mod.rs: the blocks of a table that is written.
pub mod Blocks
pub mod Steps
use Prim.Native.Nat.{max}
use bkndb.Prelude.{
  ℕ, zero, suc, ◌+◌, ◌^◌, List, [], ◌∷◌, ◌++◌, Bool, true, false, Option, none, some, length, ltb,
  leb, if◌then◌else◌,
}
use bkndb.Error.{Result, ok, err, ◌>>=◌, backend}
use bkndb.Lsm.Codec.{Crc32, Lz4}
use bkndb.Lsm.Memtable.{LsmValue}
use bkndb.Lsm.Sstable.{encode_entry}
use bkndb.Lsm.Sstable.Handle.{Block}

pub record WriteOptions : Type 0 where
  pub block_size : ℕ
  pub compress : Bool

pub record BlockMeta : Type 0 where
  pub first_key : List ℕ
  pub offset : ℕ
  pub stored_len : ℕ
  pub raw_len : ℕ
  pub compressed : Bool
  pub crc : ℕ

-- `out` is what was written since the writer was made.
pub record BlockWriter : Type 0 where
  pub out : List ℕ
  pub opts : WriteOptions
  pub raw : List ℕ
  pub first_key : List ℕ
  pub offset : ℕ
  pub blocks : List BlockMeta

-- `Block::from`
unfoldable pub block_of : BlockMeta → Block
block_of m = record {
  first_key = m.first_key;
  offset = m.offset;
  stored_len = m.stored_len;
  raw_len = m.raw_len;
  compressed = m.compressed;
  crc = some m.crc;
}

-- `u32::try_from(n)`
unfoldable pub too_big : ℕ → Result ℕ
too_big n = if ltb n (2 ^ 32) then ok n else err backend

abbrev pub is_some {ℓ} : {A : Type ℓ} → Option A → Bool
is_some none = false
is_some (some a) = true

abbrev pub unwrap_or {ℓ} : {A : Type ℓ} → Option A → A → A
unwrap_or none default = default
unwrap_or (some a) default = a

-- The compressed bytes, where compression is on and makes the block smaller.
unfoldable pub compress_raw : Lz4 → WriteOptions → List ℕ → Option (List ℕ)
compress_raw lz4 opts raw =
    let c = lz4.compress raw in
    if opts.compress then (if ltb (length c) (length raw) then some c else none) else none

-- The writer with the entry behind `raw`.
unfoldable pub add_entry : BlockWriter → List ℕ → LsmValue → BlockWriter
add_entry w key v = record w {
  raw = w.raw ++ encode_entry key v;
  first_key = elim w.raw [ [] ↦ key | b ∷ raw ↦ w.first_key ];
}

module _ (crc32 : Crc32) (lz4 : Lz4) where
  -- The block that `finish_block` closes. On an error the caller gives the whole table up.
  unfoldable pub close_block : BlockWriter → Result BlockWriter
  close_block w =
      let compressed = compress_raw lz4 w.opts w.raw in
      let stored = unwrap_or compressed w.raw in
      too_big (length stored) >>= λ stored_len. too_big (length w.raw) >>= λ raw_len. ok (record {
        out = w.out ++ stored;
        opts = w.opts;
        raw = [];
        first_key = [];
        offset = w.offset + length stored;
        blocks =
            w.blocks
            ++ record {
              first_key = w.first_key;
              offset = w.offset;
              stored_len = stored_len;
              raw_len = raw_len;
              compressed = is_some compressed;
              crc = crc32.hash stored;
            }
              ∷ [];
      })

  unfoldable pub finish_block : BlockWriter → Result BlockWriter
  finish_block w = elim w.raw [ [] ↦ ok w | b ∷ raw ↦ close_block w ]

  unfoldable pub push : BlockWriter → List ℕ → LsmValue → Result BlockWriter
  push w key v =
      let w' = add_entry w key v in
      if leb (max w'.opts.block_size 1) (length w'.raw) then finish_block w' else ok w'
