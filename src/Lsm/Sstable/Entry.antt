-- ===== src/Lsm/Sstable/Entry.antt =====
-- crates/bkndb-storage-lsm/src/sstable/format.rs: an entry decodes to what was encoded.
use bkndb.Prelude.{
  ℕ, ◌+◌, ◌<◌, ◌^◌, ◌≡◌, refl, ap, ◌∙◌, arith, List, [], ◌∷◌, ◌++◌, append_assoc, Option, none,
  some, false, length, length-append, get_elem?, ltb, take, take_of_length, drop_of_length,
}
use bkndb.Prelude.BigEndian.{to_be, from_be-to_be, length-to_be}
use bkndb.Prelude.Slices.{slice, get_range, get_range-append, get_elem?-append}
use bkndb.Error.{ok}
use bkndb.Lsm.Memtable.{LsmValue, value, tombstone}
use bkndb.Lsm.Sstable.{encode_value, encode_entry, decode_entry, decode_value, read_u32}

pub read_u32-to_be :
    (before : List ℕ) (n : ℕ) (after : List ℕ) (at : ℕ)
    → length before ≡ at
    → n < 2 ^ 32
    → read_u32 (before ++ (to_be 4 n ++ after)) at ≡ ok n
unfolding read_u32
read_u32-to_be before n after at h small =
    let got : get_range at 4 (before ++ (to_be 4 n ++ after)) ≡ some (to_be 4 n) =
      get_range-append before (to_be 4 n) after at 4 h (length-to_be 4 n) in
    rw (got, from_be-to_be 4 n small)

abbrev pub range_of : List ℕ → LsmValue → Option (ℕ × ℕ)
range_of key tombstone = none
range_of key (value bytes) = some (length key + 9, length key + 9 + length bytes)

abbrev pub Fits : LsmValue → Type 0
Fits tombstone = Unit
Fits (value bytes) = length bytes < 2 ^ 32

pub length-encode_entry :
    (key : List ℕ) (v : LsmValue)
    → length (encode_entry key v) ≡ 4 + length key + length (encode_value v)
unfolding encode_entry
length-encode_entry key v = omega (
  arith,
  length-append (to_be 4 (length key)) (key ++ encode_value v),
  length-append key (encode_value v),
  length-to_be 4 (length key),
)

pub length-encode_value : (bytes : List ℕ) → length (encode_value (value bytes)) ≡ 5 + length bytes
unfolding encode_value
length-encode_value bytes =
    omega (arith, length-append (to_be 4 (length bytes)) bytes, length-to_be 4 (length bytes))

module _ (key rest : List ℕ) where
  head : List ℕ
  head = to_be 4 (length key) ++ key

  length-head : length head ≡ 4 + length key
  unfolding head
  length-head = omega (arith, length-append (to_be 4 (length key)) key, length-to_be 4 (length key))

  entry-eq :
      (v : LsmValue)
      → encode_entry key v ++ rest ≡ to_be 4 (length key) ++ (key ++ (encode_value v ++ rest))
  unfolding encode_entry
  entry-eq v = simp append_assoc

  entry_head : (v : LsmValue) → encode_entry key v ++ rest ≡ head ++ (encode_value v ++ rest)
  unfolding encode_entry head
  entry_head v = simp append_assoc

  got_len :
      (v : LsmValue)
      → length key < 2 ^ 32
      → read_u32 (encode_entry key v ++ rest) 0 ≡ ok (length key)
  got_len v small =
      rw (entry-eq v)
        (read_u32-to_be [] (length key) (key ++ (encode_value v ++ rest)) 0 refl small)

  got_key : (v : LsmValue) → get_range 4 (length key) (encode_entry key v ++ rest) ≡ some key
  got_key v =
      ap (get_range 4 (length key)) (entry-eq v)
      ∙ get_range-append (to_be 4 (length key)) key (encode_value v ++ rest) 4 (length key)
          (length-to_be 4 (length key)) refl

  got_tag :
      (tag : ℕ) (body : List ℕ) (v : LsmValue)
      → encode_value v ≡ tag ∷ body
      → get_elem? (encode_entry key v ++ rest) (4 + length key) ≡ some tag
  got_tag tag body v e =
      ap (λ b. get_elem? b (4 + length key)) (entry_head v ∙ ap (λ w. head ++ (w ++ rest)) e)
      ∙ get_elem?-append head tag (body ++ rest) (4 + length key) length-head

  got_value :
      (bytes : List ℕ)
      → length bytes < 2 ^ 32
      → decode_value (encode_entry key (value bytes) ++ rest) 1 (4 + length key + 1)
        ≡ ok (range_of key (value bytes), length (encode_entry key (value bytes)))
  unfolding decode_value
  got_value bytes small =
      let whole = encode_entry key (value bytes) ++ rest in
      let before = head ++ 1 ∷ [] in
      let e : whole ≡ before ++ (to_be 4 (length bytes) ++ (bytes ++ rest)) =
        entry_head (value bytes) ∙ (unfold encode_value in simp append_assoc) in
      let len : read_u32 whole (4 + length key + 1) ≡ ok (length bytes) = rw e (
        read_u32-to_be before (length bytes) (bytes ++ rest) (4 + length key + 1)
          (omega (arith, length-head, length-append head (1 ∷ []))) small) in
      let room : ltb (length whole) (4 + length key + 1 + 4 + length bytes) ≡ false = ground (
        arith,
        length-append (encode_entry key (value bytes)) rest,
        length-encode_entry key (value bytes),
        length-encode_value bytes,
      ) in
      rw (len, room)
        (ground (arith, length-encode_entry key (value bytes), length-encode_value bytes))

  -- An entry, whatever follows it, decodes to its key, the place of its value and its length, for a
  -- key and a value below 2^32 bytes.
  pub decode_entry-encode_entry :
      (v : LsmValue)
      → length key < 2 ^ 32
      → Fits v
      → decode_entry (encode_entry key v ++ rest)
        ≡ ok (key, range_of key v, length (encode_entry key v))
  unfolding decode_entry
  decode_entry-encode_entry tombstone small fits =
      let tag = got_tag 0 [] tombstone (unfold encode_value in refl) in
      rw (got_len tombstone small, got_key tombstone, tag)
        (unfold decode_value encode_value in ground (arith, length-encode_entry key tombstone))
  decode_entry-encode_entry (value bytes) small fits =
      let tag =
        got_tag 1 (to_be 4 (length bytes) ++ bytes) (value bytes) (unfold encode_value in refl) in
      rw (got_len (value bytes) small, got_key (value bytes), tag, got_value bytes fits)

  pub value_slice :
      (bytes : List ℕ)
      → slice (length key + 9) (length bytes) (encode_entry key (value bytes) ++ rest) ≡ bytes
  value_slice bytes =
      let before = head ++ 1 ∷ to_be 4 (length bytes) in
      let e : encode_entry key (value bytes) ++ rest ≡ before ++ (bytes ++ rest) =
        entry_head (value bytes) ∙ (unfold encode_value in simp append_assoc) in
      let at : length before ≡ length key + 9 = omega (
        arith,
        length-head,
        length-append head (1 ∷ to_be 4 (length bytes)),
        length-to_be 4 (length bytes),
      ) in
      ap (slice (length key + 9) (length bytes)) e
      ∙ ap (take (length bytes)) (drop_of_length (length key + 9) before (bytes ++ rest) at)
      ∙ take_of_length (length bytes) bytes rest refl
