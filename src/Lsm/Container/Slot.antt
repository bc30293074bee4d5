-- ===== src/Lsm/Container/Slot.antt =====
-- crates/bkndb-storage-lsm/src/container.rs: a header slot is read back as it was written.
use bkndb.Prelude.{ℕ, ◌+◌, ◌<◌, ◌≤◌, ◌^◌, ◌≡◌, refl, ap, ◌∙◌, arith, List, ◌++◌, some}
use native.Mathlib.Nat.{add_assoc}
use bkndb.Prelude.{take_all, length, take, replicate, length-append, take_of_length, ==_iff}
use bkndb.Prelude.Order.{bytes_cmp-IsTotal}
use bkndb.Prelude.BigEndian.{to_be, from_be-to_be, length-to_be}
use bkndb.Prelude.Slices.{slice, slice_within, slice_here, slice_skip}
use bkndb.Error.{ok}
use bkndb.Lsm.Codec.{Crc32}
use bkndb.Lsm.Container.{
  format_version, HeaderSlot, magic, slot_fields, encode_slot, check_slot, decode_slot,
}

module _ (crc32 : Crc32) (seq manifest_offset : ℕ) (manifest : List ℕ) where
  abbrev fields : List ℕ
  fields = slot_fields crc32 seq manifest_offset manifest

  -- The parts of the slot from its length, its offset and its sequence number on.
  abbrev from_len : List ℕ
  from_len = to_be 8 (length manifest) ++ to_be 4 (crc32.hash manifest)

  abbrev from_offset : List ℕ
  from_offset = to_be 8 manifest_offset ++ from_len

  abbrev from_seq : List ℕ
  from_seq = to_be 8 seq ++ from_offset

  length-fields : length fields ≡ 40
  unfolding slot_fields
  length-fields = omega (
    arith,
    length-append (to_be 4 format_version) from_seq,
    length-append (to_be 8 seq) from_offset,
    length-append (to_be 8 manifest_offset) from_len,
    length-append (to_be 8 (length manifest)) (to_be 4 (crc32.hash manifest)),
    length-to_be 4 format_version,
    length-to_be 8 seq,
    length-to_be 8 manifest_offset,
    length-to_be 8 (length manifest),
    length-to_be 4 (crc32.hash manifest),
  )

  pub length-encode_slot : length (encode_slot crc32 seq manifest_offset manifest) ≡ 64
  unfolding encode_slot
  length-encode_slot = omega (
    arith,
    length-fields,
    length-append fields (to_be 4 (crc32.hash fields) ++ replicate 20 0),
    length-append (to_be 4 (crc32.hash fields)) (replicate 20 0),
    length-to_be 4 (crc32.hash fields),
  )

  -- A field of the slot lies in the part that the checksum covers.
  field :
      (at len : ℕ)
      → at + len ≤ 40
      → slice at len (encode_slot crc32 seq manifest_offset manifest) ≡ slice at len fields
  unfolding encode_slot
  field at len h = slice_within at len fields _ (omega (arith, length-fields))

  after_magic : (at len : ℕ) → slice (12 + at) len fields ≡ slice at len from_seq
  unfolding slot_fields
  after_magic at len =
      ap (λ n. slice n len fields) (add_assoc 8 4 at)
      ∙ slice_skip 8 (4 + at) len magic (to_be 4 format_version ++ from_seq) refl
      ∙ slice_skip 4 at len (to_be 4 format_version) from_seq (length-to_be 4 format_version)

  version_field : slice 8 4 fields ≡ to_be 4 format_version
  unfolding slot_fields
  version_field = slice_here 4 (to_be 4 format_version) from_seq (length-to_be 4 format_version)

  seq_field : slice 12 8 fields ≡ to_be 8 seq
  seq_field = after_magic 0 8 ∙ slice_here 8 (to_be 8 seq) from_offset (length-to_be 8 seq)

  offset_field : slice 20 8 fields ≡ to_be 8 manifest_offset
  offset_field =
      after_magic 8 8
      ∙ slice_skip 8 0 8 (to_be 8 seq) from_offset (length-to_be 8 seq)
      ∙ slice_here 8 (to_be 8 manifest_offset) from_len (length-to_be 8 manifest_offset)

  from_len_field : (at len : ℕ) → slice (28 + at) len fields ≡ slice at len from_len
  from_len_field at len =
      let e : 28 + at ≡ 12 + (8 + (8 + at)) = omega arith in
      ap (λ n. slice n len fields) e
      ∙ after_magic (8 + (8 + at)) len
      ∙ slice_skip 8 (8 + at) len (to_be 8 seq) from_offset (length-to_be 8 seq)
      ∙ slice_skip 8 at len (to_be 8 manifest_offset) from_len (length-to_be 8 manifest_offset)

  len_field : slice 28 8 fields ≡ to_be 8 (length manifest)
  len_field =
      from_len_field 0 8
      ∙ slice_here 8 (to_be 8 (length manifest)) (to_be 4 (crc32.hash manifest))
          (length-to_be 8 (length manifest))

  crc_field : slice 36 4 fields ≡ to_be 4 (crc32.hash manifest)
  crc_field =
      from_len_field 8 4
      ∙ slice_skip 8 0 4 (to_be 8 (length manifest)) (to_be 4 (crc32.hash manifest))
          (length-to_be 8 (length manifest))
      ∙ take_all 4 (to_be 4 (crc32.hash manifest))
          (omega (arith, length-to_be 4 (crc32.hash manifest)))

  abbrev encoded : List ℕ
  encoded = encode_slot crc32 seq manifest_offset manifest

  magic_field : take 8 encoded ≡ magic
  magic_field = field 0 8 (omega arith) ∙ (unfold slot_fields in refl)

  -- The magic and the version in front of the slot.
  pub version_head : take 12 encoded ≡ magic ++ to_be 4 format_version
  version_head =
      field 0 12 (omega arith)
      ∙ (unfold slot_fields in
          ap (λ v. magic ++ v)
            (take_of_length 4 (to_be 4 format_version) from_seq (length-to_be 4 format_version)))

  checksum_input : take 40 encoded ≡ fields
  unfolding encode_slot
  checksum_input = take_of_length 40 fields _ length-fields

  checksum_field : slice 40 4 encoded ≡ to_be 4 (crc32.hash fields)
  unfolding encode_slot
  checksum_field =
      slice_skip 40 0 4 fields _ length-fields
      ∙ slice_here 4 (to_be 4 (crc32.hash fields)) _ (length-to_be 4 (crc32.hash fields))

  abbrev pub written : ℕ → HeaderSlot
  written slot = record {
    slot = slot;
    seq = seq;
    manifest_offset = manifest_offset;
    manifest_len = length manifest;
    manifest_crc = some (crc32.hash manifest);
  }

  -- A slot that was encoded decodes to what was put in, for any sequence number and manifest range
  -- of 64 bits.
  pub decode_slot-encode_slot :
      (slot : ℕ)
      → seq < 2 ^ 64
      → manifest_offset < 2 ^ 64
      → length manifest < 2 ^ 64
      → decode_slot crc32 slot encoded ≡ ok (some (written slot))
  decode_slot-encode_slot slot h_seq h_offset h_len =
      unfold decode_slot check_slot in
      rw
        (
          magic_field,
          bytes_cmp-IsTotal.self_equal magic,
          field 8 4 (omega arith),
          version_field,
          from_be-to_be 4 format_version (omega arith),
        )
        (rw (
          checksum_input,
          checksum_field,
          from_be-to_be 4 (crc32.hash fields) (crc32.hash_bound fields),
          (==_iff (crc32.hash fields) (crc32.hash fields)).1 refl,
          field 12 8 (omega arith),
          seq_field,
          from_be-to_be 8 seq h_seq,
          field 20 8 (omega arith),
          offset_field,
          from_be-to_be 8 manifest_offset h_offset,
          field 28 8 (omega arith),
          len_field,
          from_be-to_be 8 (length manifest) h_len,
          field 36 4 (omega arith),
          crc_field,
          from_be-to_be 4 (crc32.hash manifest) (crc32.hash_bound manifest),
        ))
