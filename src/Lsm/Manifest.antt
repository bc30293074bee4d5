-- ===== src/Lsm/Manifest.antt =====
-- crates/bkndb-storage-lsm/src/manifest.rs: which tables make up the live database.
use bkndb.Prelude.{ℕ, List, none, some}
use bkndb.Error.{Result, ok, err, encoding}
use bkndb.Lsm.Codec.{Bincode}

pub record SstableRef : Type 0 where
  pub generation : ℕ
  pub offset : ℕ
  pub length : ℕ

pub record Manifest : Type 0 where
  pub next_sstable_id : ℕ
  pub sstables : List SstableRef
  pub wal_region_start : ℕ

module _ (bincode : Bincode Manifest) where
  -- The serialization of this type does not fail.
  abbrev pub encode : Manifest → List ℕ
  encode m = bincode.serialize m

  unfoldable pub decode : List ℕ → Result Manifest
  decode bytes = elim (bincode.deserialize bytes) [ none ↦ err encoding | some m ↦ ok m ]
