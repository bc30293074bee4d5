-- ===== src/Lsm/Codec.antt =====
-- What the engine takes from other crates: `bincode` for one type, and `crc32fast::hash`.
use bkndb.Prelude.{ℕ, ◌<◌, ◌^◌, ◌≡◌, List, Option, some, length}

-- `bincode::serialize` and `bincode::deserialize`; a value that was written is read back.
pub record Bincode (A : Type 0) : Type 0 where
  pub serialize : A → List ℕ
  pub deserialize : List ℕ → Option A
  pub round_trip : (a : A) → deserialize (serialize a) ≡ some a

-- `crc32fast::hash`: a checksum of 32 bits.
pub record Crc32 : Type 0 where
  pub hash : List ℕ → ℕ
  pub hash_bound : (bytes : List ℕ) → hash bytes < 2 ^ 32

-- lz4_flex: a block decompresses, at its own length, to what was compressed.
pub record Lz4 : Type 0 where
  pub compress : List ℕ → List ℕ
  pub decompress : List ℕ → ℕ → Option (List ℕ)
  pub decompress-compress : (raw : List ℕ) → decompress (compress raw) (length raw) ≡ some raw
