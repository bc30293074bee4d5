-- ===== src/Lsm/Wal/Frames.antt =====
-- crates/bkndb-storage-lsm/src/wal.rs: one frame, whole or cut off.
use bkndb.Prelude.{ℕ, ◌+◌, ◌≤◌, ◌<◌, ◌^◌, ◌≡◌, ◌∙◌, arith, List, [], ◌++◌, append_assoc, append-nil}
use bkndb.Prelude.{
  none, some, inl, inr, Bool-cases, length, take, drop, length-append, length-take, take-append,
  drop_add, take_of_length, drop_of_length, take-take_le, ltb,
}
use bkndb.Prelude.BigEndian.{to_be, from_be, from_be-to_be, length-to_be}
use bkndb.Lsm.Codec.{Bincode, Crc32}
use bkndb.Lsm.Wal.{WalRecord, frame, read_frame}

module _ (bincode : Bincode WalRecord) (crc32 : Crc32) where
  pub length-frame : (payload : List ℕ) → length (frame bincode crc32 payload) ≡ 8 + length payload
  unfolding frame
  length-frame payload =
      let len = to_be 4 (length payload) in
      let crc = to_be 4 (crc32.hash payload) in
      omega (
        arith,
        length-append len (crc ++ payload),
        length-append crc payload,
        length-to_be 4 (length payload),
        length-to_be 4 (crc32.hash payload),
      )

  module _ (payload tail : List ℕ) where
    abbrev whole : List ℕ
    whole = frame bincode crc32 payload ++ tail

    whole-eq :
        whole ≡ to_be 4 (length payload) ++ (to_be 4 (crc32.hash payload) ++ (payload ++ tail))
    unfolding frame
    whole-eq = simp append_assoc

    header_len : length payload < 2 ^ 32 → from_be (take 4 whole) ≡ length payload
    header_len h =
        rw
          (
            whole-eq,
            take_of_length 4 (to_be 4 (length payload)) _ (length-to_be 4 (length payload)),
          )
          (from_be-to_be 4 (length payload) h)

    whole-drop : drop 4 whole ≡ to_be 4 (crc32.hash payload) ++ (payload ++ tail)
    whole-drop =
        rw whole-eq
          (drop_of_length 4 (to_be 4 (length payload)) _ (length-to_be 4 (length payload)))

    header_crc : from_be (take 4 (drop 4 whole)) ≡ crc32.hash payload
    header_crc =
        rw
          (
            whole-drop,
            take_of_length 4 (to_be 4 (crc32.hash payload)) (payload ++ tail)
                (length-to_be 4 (crc32.hash payload)),
          )
          (from_be-to_be 4 (crc32.hash payload) (crc32.hash_bound payload))

    after_header : drop 8 whole ≡ payload ++ tail
    after_header =
        drop_add 4 4 whole
        ∙ rw (
          whole-drop,
          drop_of_length 4 (to_be 4 (crc32.hash payload)) (payload ++ tail)
              (length-to_be 4 (crc32.hash payload)),
        )

    pub read_frame-whole :
        (r : WalRecord) (file_len valid_end : ℕ)
        → length payload < 2 ^ 32
        → bincode.deserialize payload ≡ some r
        → valid_end + (8 + length payload) ≤ file_len
        → file_len < 2 ^ 64
        → read_frame bincode crc32 file_len valid_end whole ≡ some (r, length payload)
    unfolding read_frame
    read_frame-whole r file_len valid_end fits decoded room small =
        rw (header_len fits, header_crc, after_header, take-append payload tail, decoded)
          (ground (
            arith,
            header_len fits,
            length-append payload tail,
            length-append (frame bincode crc32 payload) tail,
            length-frame payload,
          ))

  -- A frame that the end of the file cuts off is not read.
  pub read_frame-cut :
      (payload : List ℕ) (file_len valid_end n : ℕ)
      → length payload < 2 ^ 32
      → n < length (frame bincode crc32 payload)
      → file_len ≡ valid_end + n
      → read_frame bincode crc32 file_len valid_end (take n (frame bincode crc32 payload)) ≡ none
  unfolding read_frame
  read_frame-cut payload file_len valid_end n fits short e = elim (Bool-cases (ltb n 8)) [
    | inl header ↦ ground (arith, length-take n (frame bincode crc32 payload))
    | inr body ↦
        rw (take-take_le 4 n (frame bincode crc32 payload) (ground arith), len)
          (ground (arith, length-frame payload))
  ]
    where
      len : from_be (take 4 (frame bincode crc32 payload)) ≡ length payload
      len = rw append-nil at (header_len payload [] fits)
