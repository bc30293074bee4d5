-- ===== src/Graph/Codec/Scan.antt =====
-- crates/bkndb-core/src/graph/codec.rs: the range scans over adjacency keys.
use mathlib.Core.Path.{subst}
use bkndb.Prelude.{
  ℕ, ◌<◌, ◌^◌, ◌≡◌, ◌↔◌, sym, ap, ◌∙◌, arith, List, [], ◌++◌, append_assoc, append-nil, true, false,
  ◌&&◌, inl, inr,
}
use bkndb.Prelude.{
  Bool-cases, and_left, and_right, All-append, length, drop, drop_of_length, replicate,
  length-append,
}
use bkndb.Prelude.Order.{bytes_cmp, bytes_cmp-append, bytes_ord, is_le}
use bkndb.Prelude.BTreeMap.{included, in_bounds}
use bkndb.Prelude.Bytes.{
  starts_with, starts_with_parts, starts_with_same_len, between-out, bytes_cmp-nil,
  bytes_cmp-replicate_ff,
}
use bkndb.Prelude.BigEndian.{to_be, to_be-injective, to_be-IsBytes, length-to_be}
use bkndb.Graph.Codec.{
  NodeId, EdgeId, encode_edge_type, encode_adj_key, adj_type_prefix, adj_type_upper_bound,
}

module _ (first : NodeId) (edge_type : List ℕ) (second : NodeId) (edge : EdgeId) where
  ids : List ℕ
  ids = to_be 8 second ++ to_be 8 edge

  length-ids : length ids ≡ 16
  unfolding ids
  length-ids = omega (
    arith,
    length-append (to_be 8 second) (to_be 8 edge),
    length-to_be 8 second,
    length-to_be 8 edge,
  )

  key-eq : encode_adj_key first edge_type second edge ≡ adj_type_prefix first edge_type ++ ids
  unfolding encode_adj_key adj_type_prefix ids
  key-eq = sym (append_assoc (to_be 8 first) (encode_edge_type edge_type) _)

  own_type :
      in_bounds
        (included (adj_type_prefix first edge_type))
        (included (adj_type_upper_bound first edge_type))
        (encode_adj_key first edge_type second edge)
      ≡ true
  own_type =
      let p = adj_type_prefix first edge_type in
      let low : is_le (bytes_cmp p (p ++ ids)) ≡ true =
        subst (λ q. is_le (bytes_cmp q (p ++ ids)) ≡ true) (append-nil p)
          (ap is_le (bytes_cmp-append p [] ids) ∙ bytes_cmp-nil ids) in
      let high : is_le (bytes_cmp (p ++ ids) (p ++ replicate 16 0xff)) ≡ true =
        ap is_le (bytes_cmp-append p ids (replicate 16 0xff))
        ∙ bytes_cmp-replicate_ff 16 ids
            (unfold ids in
              All-append _ (to_be 8 second) (to_be 8 edge) (to_be-IsBytes 8 second)
                (to_be-IsBytes 8 edge))
            length-ids in
      unfold in_bounds adj_type_upper_bound in rw (key-eq, low, high)

  module _ (first' : NodeId) (edge_type' : List ℕ) where
    same_prefix :
        first < 2 ^ 64
        → first' < 2 ^ 64
        → length edge_type < 2 ^ 16
        → length edge_type' < 2 ^ 16
        → starts_with
            (adj_type_prefix first' edge_type')
            (encode_adj_key first edge_type second edge)
          ≡ true
        → (first' ≡ first) × (edge_type' ≡ edge_type)
    same_prefix h h' t t' s = (same_first, same_type)
      where
        tail : List ℕ
        tail = edge_type ++ ids

        after : List ℕ
        after = to_be 2 (length edge_type) ++ tail

        split : encode_adj_key first edge_type second edge ≡ to_be 8 first ++ after
        split =
            unfold encode_adj_key encode_edge_type ids in
            ap (λ k. to_be 8 first ++ k) (append_assoc _ edge_type _)

        wide : (a b : ℕ) → length (to_be 8 a) ≡ length (to_be 8 b)
        wide a b = omega (arith, length-to_be 8 a, length-to_be 8 b)

        narrow : (a b : ℕ) → length (to_be 2 a) ≡ length (to_be 2 b)
        narrow a b = omega (arith, length-to_be 2 a, length-to_be 2 b)

        prefix_parts :
            (k : List ℕ)
            → starts_with (adj_type_prefix first' edge_type') k ≡ (
                starts_with (to_be 8 first') k
                && starts_with (encode_edge_type edge_type') (drop (length (to_be 8 first')) k))
        prefix_parts k =
            unfold adj_type_prefix in
            starts_with_parts (to_be 8 first') (encode_edge_type edge_type') k

        starts :
            (starts_with (to_be 8 first') (to_be 8 first ++ after)
              && starts_with (encode_edge_type edge_type') after)
            ≡ true
        starts =
            rw
              (
                split,
                prefix_parts (to_be 8 first ++ after),
                drop_of_length (length (to_be 8 first')) (to_be 8 first) after (wide first first'),
              )
              at s

        same_first : first' ≡ first
        same_first = to_be-injective 8 first' first h' h (
            starts_with_same_len (to_be 8 first') (to_be 8 first) after (wide first' first) (
              and_left (starts_with (to_be 8 first') (to_be 8 first ++ after))
                (starts_with (encode_edge_type edge_type') after) starts))

        type_starts : starts_with (to_be 2 (length edge_type') ++ edge_type') after ≡ true
        type_starts =
            let shut : starts_with (encode_edge_type edge_type') after ≡ true =
              and_right (starts_with (to_be 8 first') (to_be 8 first ++ after))
                (starts_with (encode_edge_type edge_type') after) starts in
            unfold encode_edge_type in shut

        starts' :
            (starts_with (to_be 2 (length edge_type')) after && starts_with edge_type' tail) ≡ true
        starts' =
            rw
              (
                starts_with_parts (to_be 2 (length edge_type')) edge_type' after,
                drop_of_length (length (to_be 2 (length edge_type'))) (to_be 2 (length edge_type))
                    tail (narrow (length edge_type) (length edge_type')),
              )
              at type_starts

        same_len : length edge_type' ≡ length edge_type
        same_len = to_be-injective 2 (length edge_type') (length edge_type) t' t (
            starts_with_same_len (to_be 2 (length edge_type')) (to_be 2 (length edge_type)) tail
              (narrow (length edge_type') (length edge_type))
              (and_left (starts_with (to_be 2 (length edge_type')) after)
                (starts_with edge_type' tail) starts'))

        same_type : edge_type' ≡ edge_type
        same_type = starts_with_same_len edge_type' edge_type ids same_len (
            and_right (starts_with (to_be 2 (length edge_type')) after)
              (starts_with edge_type' tail) starts')

    -- A scan of the neighbours of one node over one edge type finds exactly the adjacency keys of that
    -- node and that type, if node ids are below 2^64 and both edge types are shorter than 2^16 bytes:
    -- an edge type that is a prefix of another one is not mistaken for it.
    pub adj_type_scan :
        first < 2 ^ 64
        → first' < 2 ^ 64
        → length edge_type < 2 ^ 16
        → length edge_type' < 2 ^ 16
        → (in_bounds
              (included (adj_type_prefix first' edge_type'))
              (included (adj_type_upper_bound first' edge_type'))
              (encode_adj_key first edge_type second edge)
            ≡ true)
          ↔ ((first' ≡ first) × (edge_type' ≡ edge_type))
    adj_type_scan h h' t t' = (found, λ same. rw (same.0, same.1) own_type)
      where
        found :
            in_bounds
                (included (adj_type_prefix first' edge_type'))
                (included (adj_type_upper_bound first' edge_type'))
                (encode_adj_key first edge_type second edge)
              ≡ true
            → (first' ≡ first) × (edge_type' ≡ edge_type)
        found inside =
            let out : starts_with (adj_type_prefix first' edge_type')
                    (encode_adj_key first edge_type second edge)
                  ≡ false
                → in_bounds (included (adj_type_prefix first' edge_type'))
                    (included (adj_type_upper_bound first' edge_type'))
                    (encode_adj_key first edge_type second edge)
                  ≡ false =
              unfold in_bounds adj_type_upper_bound in
              between-out (adj_type_prefix first' edge_type') (replicate 16 0xff)
                (encode_adj_key first edge_type second edge) in
            elim (Bool-cases (
              starts_with (adj_type_prefix first' edge_type')
                (encode_adj_key first edge_type second edge))) [
                  | inl own ↦ same_prefix h h' t t' own
                  | inr other ↦ cc (inside, out other)
                ]
