-- ===== src/Graph.antt =====
-- crates/bkndb-core/src/graph: the property graph over a storage backend.
pub mod Codec
