-- ===== src/Examples/GraphRuns.antt =====
-- crates/bkndb-core/src/graph/codec.rs at concrete keys.
use mathlib.Core.Logic.{◌↔◌}
use bkndb.Prelude.{ℕ, ◌≡◌, arith, List, [], ◌∷◌, true, some}
use bkndb.Prelude.Order.{bytes_ord}
use bkndb.Prelude.BTreeMap.{included, in_bounds}
use bkndb.Graph.Codec.{encode_adj_key, decode_adj_key, adj_type_prefix, adj_type_upper_bound}
use bkndb.Graph.Codec.RoundTrip.{decode_adj_key-encode_adj_key}
use bkndb.Graph.Codec.Scan.{adj_type_scan}

abbrev knows : List ℕ
knows = b'k' ∷ b'n' ∷ []

abbrev likes : List ℕ
likes = b'k' ∷ []

decode_adj_key-encode_adj_key_example :
    decode_adj_key (encode_adj_key 1 knows 2 300) ≡ some (1, knows, 2, 300)
decode_adj_key-encode_adj_key_example =
    decode_adj_key-encode_adj_key 1 knows 2 300 (omega arith) (omega arith) (omega arith)
      (omega arith)

adj_type_scan_example :
    (in_bounds
        (included (adj_type_prefix 1 likes))
        (included (adj_type_upper_bound 1 likes))
        (encode_adj_key 1 knows 2 300)
      ≡ true)
    ↔ ((◌≡◌ {A = ℕ} 1 1) × (likes ≡ knows))
adj_type_scan_example =
    adj_type_scan 1 knows 2 300 1 likes (omega arith) (omega arith) (omega arith) (omega arith)
