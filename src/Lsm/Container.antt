-- ===== src/Lsm/Container.antt =====
-- crates/bkndb-storage-lsm/src/container.rs: the double-buffered header of the container file, and
-- blobs by offset. The file is the list of its bytes, and `write_bytes` is what a seek and a
-- `write_all` that succeed leave behind; Lsm.Engine.Faults has the writes that fail.
pub mod Slot
pub mod Bytes
pub mod Header
pub mod Torn
pub mod Publish
use bkndb.Prelude.{ℕ, ◌+◌, ◌-◌, ◌*◌, ◌^◌, List, [], ◌∷◌, ◌++◌, Bool, Option, none, some, not}
use bkndb.Prelude.{length, take, drop, replicate, ltb, leb, ◌==◌, if◌then◌else◌}
use bkndb.Prelude.Order.{bytes_cmp, is_eq}
use bkndb.Prelude.BigEndian.{to_be, from_be}
use bkndb.Prelude.Slices.{slice}
use bkndb.Error.{Result, ok, err, ◌>>=◌, backend, corruption}
use bkndb.Lsm.Codec.{Crc32}

-- b"BKNDBLS1"
abbrev pub magic : List ℕ
magic = 0x42 ∷ 0x4b ∷ 0x4e ∷ 0x44 ∷ 0x42 ∷ 0x4c ∷ 0x53 ∷ 0x31 ∷ []

abbrev pub format_version : ℕ
format_version = 2

abbrev pub legacy_format_version : ℕ
legacy_format_version = 1

abbrev pub header_slot_len : ℕ
header_slot_len = 64

abbrev pub body_start : ℕ
body_start = header_slot_len * 2

pub record HeaderSlot : Type 0 where
  pub slot : ℕ
  pub seq : ℕ
  pub manifest_offset : ℕ
  pub manifest_len : ℕ
  pub manifest_crc : Option ℕ

-- `seek` and `write_all`: a gap before the offset is filled with zeros.
unfoldable pub write_bytes : List ℕ → ℕ → List ℕ → List ℕ
write_bytes file offset bytes =
    (take offset file ++ replicate (offset - length file) 0)
    ++ (bytes ++ drop (offset + length bytes) file)

-- The `match` at the end of `read_header`, with the length of the file.
choose_slot : ℕ → Option HeaderSlot → Option HeaderSlot → Result (Option HeaderSlot)
choose_slot len (some a) (some b) = ok (some (if leb b.seq a.seq then a else b))
choose_slot len (some a) none = ok (some a)
choose_slot len none (some b) = ok (some b)
choose_slot len none none = if len == 0 then ok none else err backend

module _ (crc32 : Crc32) where
  -- The 40 bytes that the slot's own checksum covers.
  unfoldable pub slot_fields : ℕ → ℕ → List ℕ → List ℕ
  slot_fields seq manifest_offset manifest =
      magic
      ++ (to_be 4 format_version
          ++ (to_be 8 seq
              ++ (to_be 8 manifest_offset
                  ++ (to_be 8 (length manifest) ++ to_be 4 (crc32.hash manifest)))))

  unfoldable pub encode_slot : ℕ → ℕ → List ℕ → List ℕ
  encode_slot seq manifest_offset manifest =
      let fields = slot_fields seq manifest_offset manifest in
      fields ++ (to_be 4 (crc32.hash fields) ++ replicate 20 0)

  -- The end of `decode_slot`: the slot's checksum, and its fields.
  unfoldable pub check_slot : ℕ → List ℕ → ℕ → Option ℕ → Result (Option HeaderSlot)
  check_slot slot buf crc_end manifest_crc =
      if not (crc32.hash (take crc_end buf) == from_be (slice crc_end 4 buf))
      then ok none
      else ok (
          some (record {
            slot = slot;
            seq = from_be (slice 12 8 buf);
            manifest_offset = from_be (slice 20 8 buf);
            manifest_len = from_be (slice 28 8 buf);
            manifest_crc = manifest_crc;
          }))

  unfoldable pub decode_slot : ℕ → List ℕ → Result (Option HeaderSlot)
  decode_slot slot buf =
      if not (is_eq (bytes_cmp (take 8 buf) magic))
      then ok none
      else let version = from_be (slice 8 4 buf) in
        if version == format_version
        then check_slot slot buf 40 (some (from_be (slice 36 4 buf)))
        else if version == legacy_format_version
        then check_slot slot buf 36 none
        else err backend

  unfoldable pub read_header : List ℕ → Result (Option HeaderSlot)
  unfolding choose_slot
  read_header file = if ltb (length file) body_start then ok none else do
    a ← decode_slot 0 (slice 0 header_slot_len file)
    b ← decode_slot 1 (slice header_slot_len header_slot_len file)
    choose_slot (length file) a b

  -- The new contents of the file, and the new (seq, slot).
  unfoldable pub write_header : List ℕ → ℕ → ℕ → ℕ → List ℕ → List ℕ × ℕ × ℕ
  write_header file prev_seq prev_slot manifest_offset manifest =
      let new_slot = 1 - prev_slot in
      let new_seq = prev_seq + 1 in
      let buf = encode_slot new_seq manifest_offset manifest in
      (write_bytes file (new_slot * header_slot_len) buf, new_seq, new_slot)

unfoldable pub write_blob_at : List ℕ → ℕ → List ℕ → List ℕ
unfolding write_bytes
write_blob_at file offset bytes = write_bytes file offset bytes

-- `usize::try_from` cannot fail on a 64-bit target.
unfoldable pub read_blob : List ℕ → ℕ → ℕ → Result (List ℕ)
read_blob file offset len =
    if leb (2 ^ 64) (offset + len)
    then err corruption
    else if ltb (length file) (offset + len)
    then err corruption
    else ok (slice offset len file)

unreadable : Result (List ℕ) → Result (List ℕ)
unreadable (ok bytes) = ok bytes
unreadable (err e) = err corruption

check_manifest : Crc32 → Option ℕ → List ℕ → Result (List ℕ)
check_manifest crc32 none bytes = ok bytes
check_manifest crc32 (some crc) bytes =
    if not (crc == crc32.hash bytes) then err corruption else ok bytes

unfoldable pub read_manifest : Crc32 → List ℕ → HeaderSlot → Result (List ℕ)
unfolding unreadable check_manifest
read_manifest crc32 file slot = do
  bytes ← unreadable (read_blob file slot.manifest_offset slot.manifest_len)
  check_manifest crc32 slot.manifest_crc bytes
