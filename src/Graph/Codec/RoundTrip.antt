-- ===== src/Graph/Codec/RoundTrip.antt =====
-- crates/bkndb-core/src/graph/codec.rs: an adjacency key decodes to the fields it was built from.
use native.Mathlib.Nat.{add_assoc}
use bkndb.Prelude.{
  ℕ, ◌+◌, ◌<◌, ◌^◌, ◌≡◌, refl, ap, ◌∙◌, arith, List, ◌++◌, append_assoc, some, false, length,
  take_all, length-append, ltb,
}
use bkndb.Prelude.BigEndian.{to_be, from_be-to_be, length-to_be}
use bkndb.Prelude.Slices.{slice, slice_here, slice_skip}
use bkndb.Graph.Codec.{NodeId, EdgeId, encode_edge_type, encode_adj_key, decode_adj_key}

module _ (first : NodeId) (edge_type : List ℕ) (second : NodeId) (edge : EdgeId) where
  abbrev ids : List ℕ
  ids = to_be 8 second ++ to_be 8 edge

  abbrev key : List ℕ
  key = encode_adj_key first edge_type second edge

  key-eq : key ≡ to_be 8 first ++ (to_be 2 (length edge_type) ++ (edge_type ++ ids))
  unfolding encode_adj_key encode_edge_type
  key-eq = ap (λ k. to_be 8 first ++ k) (append_assoc (to_be 2 (length edge_type)) edge_type ids)

  length-key : length key ≡ 26 + length edge_type
  length-key =
      let tail = edge_type ++ ids in
      ap length key-eq
      ∙ omega (
        arith,
        length-append (to_be 8 first) (to_be 2 (length edge_type) ++ tail),
        length-append (to_be 2 (length edge_type)) tail,
        length-append edge_type ids,
        length-append (to_be 8 second) (to_be 8 edge),
        length-to_be 8 first,
        length-to_be 2 (length edge_type),
        length-to_be 8 second,
        length-to_be 8 edge,
      )

  first-slice : slice 0 8 key ≡ to_be 8 first
  first-slice = ap (slice 0 8) key-eq ∙ slice_here 8 (to_be 8 first) _ (length-to_be 8 first)

  len_slice : slice 8 2 key ≡ to_be 2 (length edge_type)
  len_slice =
      ap (slice 8 2) key-eq
      ∙ slice_skip 8 0 2 (to_be 8 first) _ (length-to_be 8 first)
      ∙ slice_here 2 (to_be 2 (length edge_type)) _ (length-to_be 2 (length edge_type))

  -- From the edge type on.
  type_slice : (at len : ℕ) → slice (10 + at) len key ≡ slice at len (edge_type ++ ids)
  type_slice at len =
      let e : 10 + at ≡ 8 + (2 + at) = omega arith in
      ap (λ n. slice n len key) e
      ∙ ap (slice (8 + (2 + at)) len) key-eq
      ∙ slice_skip 8 (2 + at) len (to_be 8 first) _ (length-to_be 8 first)
      ∙ slice_skip 2 at len (to_be 2 (length edge_type)) _ (length-to_be 2 (length edge_type))

  id_slice : (at len : ℕ) → slice (10 + (length edge_type + at)) len key ≡ slice at len ids
  id_slice at len =
      type_slice (length edge_type + at) len
      ∙ slice_skip (length edge_type) at len edge_type ids refl

  second-slice : slice (10 + length edge_type) 8 key ≡ to_be 8 second
  second-slice =
      let e : 10 + length edge_type ≡ 10 + (length edge_type + 0) = omega arith in
      ap (λ n. slice n 8 key) e
      ∙ id_slice 0 8
      ∙ slice_here 8 (to_be 8 second) (to_be 8 edge) (length-to_be 8 second)

  edge_slice : slice (10 + length edge_type + 8) 8 key ≡ to_be 8 edge
  edge_slice =
      ap (λ n. slice n 8 key) (add_assoc 10 (length edge_type) 8)
      ∙ id_slice 8 8
      ∙ slice_skip 8 0 8 (to_be 8 second) (to_be 8 edge) (length-to_be 8 second)
      ∙ take_all 8 (to_be 8 edge) (omega (arith, length-to_be 8 edge))

  -- Every adjacency key with ids below 2^64 and an edge type of at most 65535 bytes decodes to its
  -- four fields.
  pub decode_adj_key-encode_adj_key :
      first < 2 ^ 64
      → length edge_type < 2 ^ 16
      → second < 2 ^ 64
      → edge < 2 ^ 64
      → decode_adj_key key ≡ some (first, edge_type, second, edge)
  unfolding decode_adj_key
  decode_adj_key-encode_adj_key h_first h_type h_second h_edge =
      rw (len_slice, from_be-to_be 2 (length edge_type) h_type)
        (let long : ltb (length key) 10 ≡ false = ground (arith, length-key) in
          let room : ltb (length key) (10 + length edge_type + 16) ≡ false =
            ground (arith, length-key) in
          rw (long, room)
            (rw (first-slice, from_be-to_be 8 first h_first)
              (rw (second-slice, from_be-to_be 8 second h_second)
                (rw (edge_slice, from_be-to_be 8 edge h_edge)
                  (rw (
                    type_slice 0 (length edge_type)
                    ∙ slice_here (length edge_type) edge_type ids refl))))))
