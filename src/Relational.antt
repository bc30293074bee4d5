-- ===== src/Relational.antt =====
-- crates/bkndb-core/src/relational: tables of typed rows over the storage trait.
pub mod Codec
