-- ===== src/Graph/Codec.antt =====
-- crates/bkndb-core/src/graph/codec.rs: the binary keys of nodes, edges and adjacency entries.
-- `NodeId` and `EdgeId` are their numbers, and an edge type is the list of its UTF-8 bytes.
pub mod RoundTrip
pub mod Scan
use bkndb.Prelude.{
  ℕ, ◌+◌, ◌^◌, List, ◌++◌, Option, none, some, length, replicate, ltb, leb, ◌==◌, if◌then◌else◌,
}
use bkndb.Prelude.BigEndian.{to_be, from_be}
use bkndb.Prelude.Slices.{slice}
use bkndb.Error.{Result, ok, err, encoding}

abbrev pub NodeId : Type 0
NodeId = ℕ

abbrev pub EdgeId : Type 0
EdgeId = ℕ

unfoldable pub node_key : NodeId → List ℕ
node_key id = to_be 8 id

-- `try_into` of a slice of any other length fails.
unfoldable pub decode_node_id : List ℕ → Result NodeId
decode_node_id bytes = if length bytes == 8 then ok (from_be bytes) else err encoding

unfoldable pub edge_key : EdgeId → List ℕ
edge_key id = to_be 8 id

-- `checked_add(1)`
unfoldable pub next_node_prefix : NodeId → Option (List ℕ)
next_node_prefix id = if ltb (id + 1) (2 ^ 64) then some (to_be 8 (id + 1)) else none

-- `to_be 2` keeps the two low bytes, as the cast to `u16` does.
unfoldable pub encode_edge_type : List ℕ → List ℕ
encode_edge_type t = to_be 2 (length t) ++ t

unfoldable pub encode_adj_key : NodeId → List ℕ → NodeId → EdgeId → List ℕ
encode_adj_key first edge_type second edge =
    to_be 8 first ++ (encode_edge_type edge_type ++ (to_be 8 second ++ to_be 8 edge))

unfoldable pub adj_out_key : NodeId → List ℕ → NodeId → EdgeId → List ℕ
unfolding encode_adj_key
adj_out_key from edge_type to edge = encode_adj_key from edge_type to edge

unfoldable pub adj_in_key : NodeId → List ℕ → NodeId → EdgeId → List ℕ
unfolding encode_adj_key
adj_in_key to edge_type from edge = encode_adj_key to edge_type from edge

unfoldable pub adj_type_prefix : NodeId → List ℕ → List ℕ
adj_type_prefix first edge_type = to_be 8 first ++ encode_edge_type edge_type

unfoldable pub adj_type_upper_bound : NodeId → List ℕ → List ℕ
adj_type_upper_bound first edge_type = adj_type_prefix first edge_type ++ replicate 16 0xff

-- `none` is the panic of a slice that runs past the end of the key.
unfoldable pub decode_adj_key : List ℕ → Option (ℕ × List ℕ × ℕ × EdgeId)
decode_adj_key key =
    let len = from_be (slice 8 2 key) in
    let off = 10 + len in
    if ltb (length key) 10
    then none
    else if ltb (length key) (off + 16)
    then none
    else some (
      from_be (slice 0 8 key),
      slice 10 len key,
      from_be (slice off 8 key),
      from_be (slice (off + 8) 8 key),
    )
