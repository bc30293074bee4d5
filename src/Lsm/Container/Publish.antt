-- ===== src/Lsm/Container/Publish.antt =====
-- crates/bkndb-storage-lsm/src/container.rs, and its use in engine/write.rs: a manifest is written
-- behind the data, and the header write that points at it is what publishes it.
use mathlib.Core.Path.{subst}
use bkndb.Prelude.{
  ◌⊎◌, inl, inr, ℕ, ◌+◌, ◌-◌, ◌*◌, ◌<◌, ◌≤◌, ◌^◌, ◌≡◌, refl, sym, ap, ◌∙◌, arith, List, some, false,
}
use bkndb.Prelude.{length, take, drop, length-append, length-take, length-drop, ltb, leb, ==_iff}
use bkndb.Prelude.BigEndian.{from_be}
use bkndb.Prelude.Slices.{slice}
use bkndb.Error.{ok}
use bkndb.Lsm.Codec.{Crc32}
use bkndb.Lsm.Container.{
  HeaderSlot, write_bytes, decode_slot, read_header, write_header, encode_slot,
}
use bkndb.Lsm.Container.{write_blob_at, read_blob, read_manifest}
use bkndb.Lsm.Container.Slot.{length-encode_slot, decode_slot-encode_slot}
use bkndb.Lsm.Container.Torn.{torn, CanTear, torn_slot}
use bkndb.Lsm.Container.Bytes.{
  length-write_bytes_ge, slice-write_bytes_here, slice-write_bytes_before, slice-write_bytes_after,
  length-write_bytes,
}
use bkndb.Lsm.Container.Header.{
  slot_at, Yields, IsLive, next_header, read_header-IsLive, torn_header, newer_header,
  write_header-IsLive,
}

module _ (crc32 : Crc32) (file : List ℕ) (h : HeaderSlot) (manifest_offset : ℕ)
    (manifest : List ℕ) where
  -- The file once the manifest is written, and once the header points at it.
  abbrev pub with_manifest : List ℕ
  with_manifest = write_blob_at file manifest_offset manifest

  abbrev pub published : List ℕ
  published = (write_header crc32 with_manifest h.seq h.slot manifest_offset manifest).0

  -- The slot that `write_header` was writing when a crash let only its first n bytes reach the
  -- file, and that file.
  abbrev pub old_slot : List ℕ
  old_slot = slice ((1 - h.slot) * 64) 64 file

  abbrev pub new_slot : List ℕ
  new_slot = encode_slot crc32 (h.seq + 1) manifest_offset manifest

  abbrev pub torn_slot_of : ℕ → List ℕ
  torn_slot_of n = torn n old_slot new_slot

  abbrev pub crashed : ℕ → List ℕ
  crashed n = write_bytes with_manifest ((1 - h.slot) * 64) (torn_slot_of n)

  module _ (live : IsLive crc32 file h) (body : 128 ≤ manifest_offset)
      (inside : manifest_offset ≤ length file) where
    length-with_manifest :
        (length file ≤ length with_manifest)
        × (manifest_offset + length manifest ≤ length with_manifest)
    length-with_manifest =
        unfold write_blob_at in length-write_bytes_ge file manifest_offset manifest inside

    with_manifest-IsLive : IsLive crc32 with_manifest h
    with_manifest-IsLive = record {
      long = omega (arith, live.long, length-with_manifest.0);
      slot_bound = live.slot_bound;
      decoded = same h.slot live.slot_bound ∙ live.decoded;
      other = subst (Yields crc32 h.seq) (sym (same (1 - h.slot) (omega arith))) live.other;
    }
      where
        same : (slot : ℕ) → slot < 2 → slot_at crc32 with_manifest slot ≡ slot_at crc32 file slot
        same slot b =
            unfold write_blob_at in
            ap (decode_slot crc32 slot) (
              slice-write_bytes_before file manifest_offset manifest inside (slot * 64) 64
                (omega (arith, body, b)))

    -- A write to a header slot keeps what lies in the body.
    body_stays :
        (buf : List ℕ) (at len : ℕ)
        → length buf ≡ 64
        → 128 ≤ at
        → slice at len (write_bytes with_manifest ((1 - h.slot) * 64) buf)
          ≡ slice at len with_manifest
    body_stays buf at len size past =
        let skip = (1 - h.slot) * 64 + length buf in
        let e : skip + (at - skip) ≡ at = omega (arith, size, past, live.slot_bound) in
        subst
          (λ n.
            slice n len (write_bytes with_manifest ((1 - h.slot) * 64) buf)
            ≡ slice n len with_manifest)
          e
          (slice-write_bytes_after with_manifest ((1 - h.slot) * 64) buf
            (omega (arith, with_manifest-IsLive.long, live.slot_bound)) (at - skip) len)

    published-eq : published ≡ write_bytes with_manifest ((1 - h.slot) * 64) new_slot
    unfolding write_header
    published-eq = refl

    size_of : length new_slot ≡ 64
    size_of = length-encode_slot crc32 (h.seq + 1) manifest_offset manifest

    length-rewritten :
        (buf : List ℕ)
        → length buf ≡ 64
        → length (write_bytes with_manifest ((1 - h.slot) * 64) buf) ≡ length with_manifest
    length-rewritten buf size =
        length-write_bytes with_manifest ((1 - h.slot) * 64) buf
          (omega (arith, with_manifest-IsLive.long, live.slot_bound))
          (omega (arith, with_manifest-IsLive.long, live.slot_bound, size))

    manifest_there : slice manifest_offset (length manifest) with_manifest ≡ manifest
    unfolding write_blob_at
    manifest_there = slice-write_bytes_here file manifest_offset manifest inside

    module _ (h_seq : h.seq + 1 < 2 ^ 64) (h_len : manifest_offset + length manifest < 2 ^ 64) where
      published-IsLive : IsLive crc32 published (next_header crc32 h manifest_offset manifest)
      published-IsLive =
          write_header-IsLive crc32 with_manifest h manifest_offset manifest with_manifest-IsLive
            h_seq (omega (arith, h_len)) (omega (arith, h_len))

      -- Whatever the slot holds, the manifest that the new header points at is there.
      read_manifest-rewritten :
          (buf : List ℕ)
          → length buf ≡ 64
          → read_manifest crc32
              (write_bytes with_manifest ((1 - h.slot) * 64) buf)
              (next_header crc32 h manifest_offset manifest)
            ≡ ok manifest
      unfolding read_manifest read_blob
      read_manifest-rewritten buf size =
          let room : leb (2 ^ 64) (manifest_offset + length manifest) ≡ false =
            ground (arith, h_len) in
          let reach : ltb (length (write_bytes with_manifest ((1 - h.slot) * 64) buf))
                (manifest_offset + length manifest)
              ≡ false =
            ground (arith, length-rewritten buf size, length-with_manifest.1) in
          let there = body_stays buf manifest_offset (length manifest) size body ∙ manifest_there in
          rw (room, reach, there, (==_iff (crc32.hash manifest) (crc32.hash manifest)).1 refl) refl

      -- A manifest that was written into the body, within the file or at its end, and then
      -- published behind a live header is the one that the next open finds: the header read back is
      -- the new one, and the manifest that it points at has the bytes and the checksum that were
      -- written, if the sequence number and the end of the manifest are below 2^64.
      pub publish_lem :
          (read_header crc32 published ≡ ok (some (next_header crc32 h manifest_offset manifest)))
          × (read_manifest crc32 published (next_header crc32 h manifest_offset manifest)
              ≡ ok manifest)
      publish_lem = (
        read_header-IsLive crc32 published (next_header crc32 h manifest_offset manifest)
            published-IsLive,
        subst
            (λ f.
              read_manifest crc32 f (next_header crc32 h manifest_offset manifest) ≡ ok manifest)
            (sym published-eq) (read_manifest-rewritten new_slot size_of),
      )

      -- A crash within the header write leaves in its slot the first n bytes of the new header and
      -- the others of the slot before, and the next open finds one of two states: the old header,
      -- whose manifest is as it was, or the new header and the new manifest. Before the header
      -- write it finds the old header. The old header is live, its manifest lies in the body in
      -- front of the new one, and the new sequence number and the end of the new manifest are below
      -- 2^64. The slot before is of the current format, or zero where the crash does not fall
      -- behind the magic and within the version. The checksum is assumed to match the mixture only
      -- where its first 44 bytes, which are all that is read, are those of one of the two.
      pub publish_torn :
          (n : ℕ)
          → CanTear old_slot n
          → (crc32.hash (take 40 (torn_slot_of n)) ≡ from_be (slice 40 4 (torn_slot_of n))
              → (take 44 (torn_slot_of n) ≡ take 44 old_slot)
                ⊎ (take 44 (torn_slot_of n) ≡ take 44 new_slot))
          → 128 ≤ h.manifest_offset
          → h.manifest_offset + h.manifest_len ≤ manifest_offset
          → (read_header crc32 with_manifest ≡ ok (some h))
            × ((read_header crc32 (crashed n) ≡ ok (some h))
                  × (read_manifest crc32 (crashed n) h ≡ read_manifest crc32 file h)
                ⊎ (read_header crc32 (crashed n)
                    ≡ ok (some (next_header crc32 h manifest_offset manifest)))
                  × (read_manifest crc32 (crashed n) (next_header crc32 h manifest_offset manifest)
                      ≡ ok manifest))
      publish_torn n can catches past below = (
        read_header-IsLive crc32 with_manifest h with_manifest-IsLive,
        elim (torn_slot crc32 (1 - h.slot) (h.seq + 1) manifest_offset manifest old_slot n h.seq
            length-old live.other can catches) [
              | inl y ↦ inl (
                  (
                    read_header-IsLive crc32 (crashed n) h (
                        torn_header crc32 with_manifest h (torn_slot_of n) with_manifest-IsLive
                          length-torn y),
                    unfold read_manifest in rw same_blob,
                  ))
              | inr e ↦ inr (
                  (
                    read_header-IsLive crc32 (crashed n)
                        (next_header crc32 h manifest_offset manifest)
                        (newer_header crc32 with_manifest h
                          (next_header crc32 h manifest_offset manifest) (torn_slot_of n)
                          with_manifest-IsLive length-torn refl (omega arith)
                          (e
                            ∙ decode_slot-encode_slot crc32 (h.seq + 1) manifest_offset manifest
                                (1 - h.slot) h_seq (omega (arith, h_len)) (omega (arith, h_len)))),
                    read_manifest-rewritten (torn_slot_of n) length-torn,
                  ))
            ],
      )
        where
          length-old : length old_slot ≡ 64
          length-old = omega (
            arith,
            length-take 64 (drop ((1 - h.slot) * 64) file),
            length-drop ((1 - h.slot) * 64) file,
            live.long,
            live.slot_bound,
          )

          length-torn : length (torn_slot_of n) ≡ 64
          length-torn = omega (
            arith,
            length-append (take n new_slot) (drop n old_slot),
            length-take n new_slot,
            length-drop n old_slot,
            size_of,
            length-old,
          )

          same_slice :
              slice h.manifest_offset h.manifest_len (crashed n)
              ≡ slice h.manifest_offset h.manifest_len file
          same_slice =
              body_stays (torn_slot_of n) h.manifest_offset h.manifest_len length-torn past
              ∙ (unfold write_blob_at in
                  slice-write_bytes_before file manifest_offset manifest inside h.manifest_offset
                    h.manifest_len below)

          fits_before : ltb (length file) (h.manifest_offset + h.manifest_len) ≡ false
          fits_before = ground (arith, below, inside)

          fits_after : ltb (length (crashed n)) (h.manifest_offset + h.manifest_len) ≡ false
          fits_after = ground (
            arith,
            below,
            inside,
            length-rewritten (torn_slot_of n) length-torn,
            length-with_manifest.0,
          )

          same_blob :
              read_blob (crashed n) h.manifest_offset h.manifest_len
              ≡ read_blob file h.manifest_offset h.manifest_len
          same_blob = unfold read_blob in rw (fits_before, fits_after, same_slice)
