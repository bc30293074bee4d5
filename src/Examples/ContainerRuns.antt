-- ===== src/Examples/ContainerRuns.antt =====
-- crates/bkndb-storage-lsm/src/container.rs at a small file.
use bkndb.Prelude.{
  ℕ, ◌≡◌, refl, arith, List, [], ◌∷◌, ◌++◌, some, false, inr, ◌⊎◌, length, take, replicate, ◌==◌,
  ==_iff,
}
use bkndb.Prelude.Slices.{slice}
use bkndb.Prelude.Order.{bytes_cmp}
use bkndb.Prelude.BigEndian.{to_be, from_be}
use bkndb.Error.{ok, err, backend}
use bkndb.Lsm.Container.{
  magic, HeaderSlot, encode_slot, slot_fields, decode_slot, check_slot, read_header, read_manifest,
  write_header,
}
use bkndb.Lsm.Container.Slot.{written, decode_slot-encode_slot}
use bkndb.Lsm.Container.Header.{IsLive, Yields, next_header, write_header-IsLive}
use bkndb.Lsm.Container.Publish.{
  publish_lem, publish_torn, published, with_manifest, crashed, old_slot, torn_slot_of,
}
use bkndb.Examples.Fixtures.{sum32}

abbrev manifest : List ℕ
manifest = 7 ∷ 8 ∷ []

-- A file with a header in slot 0, a zeroed slot 1, and a manifest of two bytes.
abbrev file : List ℕ
file = encode_slot sum32 1 128 manifest ++ (replicate 64 0 ++ manifest)

abbrev header : HeaderSlot
header = written sum32 1 128 manifest 0

decode_slot-encode_slot_example :
    decode_slot sum32 0 (encode_slot sum32 1 128 manifest) ≡ ok (some header)
decode_slot-encode_slot_example =
    decode_slot-encode_slot sum32 1 128 manifest 0 (omega arith) (omega arith) (omega arith)

file-IsLive : IsLive sum32 file header
unfolding encode_slot slot_fields to_be decode_slot bytes_cmp check_slot from_be
file-IsLive = record { long = omega arith; slot_bound = omega arith; decoded = refl; other = tt }

abbrev newer : List ℕ
newer = 5 ∷ 6 ∷ 7 ∷ []

write_header-IsLive_example :
    IsLive sum32
      (write_header sum32 file 1 0 128 manifest).0
      (next_header sum32 header 128 manifest)
write_header-IsLive_example =
    write_header-IsLive sum32 file header 128 manifest file-IsLive (omega arith) (omega arith)
      (omega arith)

length-file : length file ≡ 130
unfolding encode_slot slot_fields to_be
length-file = refl

publish_lem_example :
    (read_header sum32 (published sum32 file header 130 newer)
      ≡ ok (some (next_header sum32 header 130 newer)))
    × (read_manifest sum32
          (published sum32 file header 130 newer)
          (next_header sum32 header 130 newer)
        ≡ ok newer)
publish_lem_example =
    publish_lem sum32 file header 130 newer file-IsLive (omega arith) (omega (arith, length-file))
      (omega arith) (omega arith)

zeros_yield : Yields sum32 1 (decode_slot sum32 1 (replicate 64 0))
unfolding decode_slot bytes_cmp
zeros_yield = tt

-- The zeroed slot 1 with the first 20 bytes of the header that points at `newer`.
abbrev half : List ℕ
half = torn_slot_of sum32 file header 130 newer 20

slot_of_file : old_slot sum32 file header 130 newer ≡ replicate 64 0
unfolding encode_slot slot_fields to_be
slot_of_file = refl

half_mismatch : (sum32.hash (take 40 half) == from_be (slice 40 4 half)) ≡ false
unfolding encode_slot slot_fields to_be from_be
half_mismatch = refl

publish_torn_example :
    (read_header sum32 (with_manifest sum32 file header 130 newer) ≡ ok (some header))
    × ((read_header sum32 (crashed sum32 file header 130 newer 20) ≡ ok (some header))
          × (read_manifest sum32 (crashed sum32 file header 130 newer 20) header
              ≡ read_manifest sum32 file header)
        ⊎ (read_header sum32 (crashed sum32 file header 130 newer 20)
            ≡ ok (some (next_header sum32 header 130 newer)))
          × (read_manifest sum32
                (crashed sum32 file header 130 newer 20)
                (next_header sum32 header 130 newer)
              ≡ ok newer))
publish_torn_example =
    publish_torn sum32 file header 130 newer file-IsLive (omega arith) (omega (arith, length-file))
      (omega arith) (omega arith) 20 (inr (slot_of_file, inr (omega arith)))
      (λ e. cc ((==_iff _ _).1 e, half_mismatch)) (omega arith) (omega arith)

-- The magic alone over a zeroed slot is refused as a version, and hides the valid header.
magic_alone :
    read_header sum32 (encode_slot sum32 1 128 manifest ++ (magic ++ (replicate 56 0 ++ manifest)))
    ≡ err backend
unfolding read_header encode_slot slot_fields to_be decode_slot bytes_cmp check_slot from_be
magic_alone = refl
