-- ===== src/Relational/Codec/Index.antt =====
-- crates/bkndb-core/src/relational/codec.rs: an index key splits into its value and its primary key.
use bkndb.Prelude.{
  ℕ, ◌≡◌, refl, sym, ap, ◌∙◌, arith, List, [], ◌∷◌, ◌++◌, append_assoc, false, some, length,
  length-append, drop-append,
}
use bkndb.Error.{ok, ◌>>=◌, bind-eq-ok}
use bkndb.Value.{PropValue, int, str, timestamp, uuid, kind_of, contains_nul, sortable_key}
use bkndb.Value.Sortable.{str_key, int_value, time_value}
use bkndb.Relational.Codec.{
  sortable_encode, index_key, nul_position, indexed_value_len, pk_from_index_key,
}
use bkndb.Relational.Codec.RoundTrip.{
  IsTyped, length-int_key, key_of_encoded, decode_sortable-sortable_encode,
}

nul_position-terminated :
    (s p : List ℕ) → contains_nul s ≡ false → nul_position (s ++ 0 ∷ p) ≡ some (length s)
unfolding nul_position contains_nul
nul_position-terminated [] p h = refl
nul_position-terminated (b ∷ s) p h = ground (arith, nul_position-terminated s p)

indexed_value_len-append :
    (v : PropValue) (key p : List ℕ)
    → IsTyped v
    → sortable_encode v ≡ ok key
    → indexed_value_len (kind_of v) (key ++ p) ≡ ok (length key)
unfolding kind_of indexed_value_len
indexed_value_len-append (int n) key p t h =
    rw (int_value n key (key_of_encoded (int n) h), length-int_key n)
indexed_value_len-append (timestamp n) key p t h =
    rw (time_value n key (key_of_encoded (timestamp n) h), length-int_key n)
indexed_value_len-append (str s) key p t h =
    let e = str_key s (key_of_encoded (str s) h) in
    rw (e.1, append_assoc s (0 ∷ []) p, nul_position-terminated s p e.0)
      (ap ok (omega (arith, length-append s (0 ∷ []))))
indexed_value_len-append (uuid u) key p t h =
    let e : u ≡ key = unfold sortable_encode sortable_key in cc in
    ap ok (sym (ap length (sym e) ∙ t.1))
indexed_value_len-append v key p t h = unfold sortable_encode sortable_key in cc

-- The primary key of an index entry is read back from its key, whatever the indexed value is, if
-- both are well typed.
pub pk_from_index_key-index_key :
    (v pk : PropValue) (key : List ℕ)
    → IsTyped v
    → IsTyped pk
    → index_key v pk ≡ ok key
    → pk_from_index_key (kind_of v) (kind_of pk) key ≡ ok pk
unfolding pk_from_index_key index_key
pk_from_index_key-index_key v pk key tv tp h =
    let first = bind-eq-ok (sortable_encode v) (λ k. sortable_encode pk >>= λ p. ok (k ++ p)) h in
    let second = bind-eq-ok (sortable_encode pk) (λ p. ok (first.0 ++ p)) first.2 in
    let e : first.0 ++ second.0 ≡ key = cc (second.2) in
    rw (← e) (
      rw (indexed_value_len-append v first.0 second.0 tv first.1, drop-append first.0 second.0)
        (decode_sortable-sortable_encode pk second.0 tp second.1))
