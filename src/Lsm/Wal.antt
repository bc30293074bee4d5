-- ===== src/Lsm/Wal.antt =====
-- crates/bkndb-storage-lsm/src/wal.rs: the write-ahead log. The container file is the list of its
-- bytes, and `append` adds at the end of it; Lsm.Engine.Faults has the writes that fail.
pub mod Frames
pub mod Recovery
use bkndb.Prelude.{ℕ, zero, suc, ◌+◌, ◌^◌, List, [], ◌∷◌, ◌++◌, Bool, ◌||◌, Option, none, some}
use bkndb.Prelude.{length, take, drop, ltb, leb, not, ◌==◌, if◌then◌else◌}
use bkndb.Prelude.BigEndian.{to_be, from_be}
use bkndb.Error.{Result, ok, err, backend}
use bkndb.Lsm.Codec.{Bincode, Crc32}

pub record WalRecord : Type 0 where
  pub entries : List (List ℕ × Option (List ℕ))

module _ (bincode : Bincode WalRecord) (crc32 : Crc32) where
  unfoldable pub frame : List ℕ → List ℕ
  frame payload = to_be 4 (length payload) ++ (to_be 4 (crc32.hash payload) ++ payload)

  -- `u32::try_from(payload.len())`, and the write at the end of the file
  unfoldable pub append : List ℕ → WalRecord → Result (List ℕ)
  unfolding frame
  append file record_ =
      let payload = bincode.serialize record_ in
      if ltb (length payload) (2 ^ 32) then ok (file ++ frame payload) else err backend

  -- One round of the loop of `replay_from`: the record at the reader's position and the length of
  -- its payload, or `none` for a `break`. `rest` is what the reader has not read, and `valid_end`
  -- the offset where it stands.
  unfoldable pub read_frame : ℕ → ℕ → List ℕ → Option (WalRecord × ℕ)
  read_frame file_len valid_end rest =
      let len = from_be (take 4 rest) in
      let expected_crc = from_be (take 4 (drop 4 rest)) in
      let payload = take len (drop 8 rest) in
      let end = valid_end + (8 + len) in
      if ltb (length rest) 8
      then none
      else if leb (2 ^ 64) end || ltb file_len end
      then none
      else if ltb (length (drop 8 rest)) len
      then none
      else if not (crc32.hash payload == expected_crc)
      then none
      else elim (bincode.deserialize payload) [ none ↦ none | some r ↦ some (r, len) ]

  -- The `loop`, with fuel for its rounds: a round that goes on consumes 8 bytes at least.
  unfoldable pub replay_loop : ℕ → ℕ → List ℕ → ℕ → List WalRecord × ℕ
  replay_loop zero file_len rest valid_end = ([], valid_end)
  replay_loop (suc fuel) file_len rest valid_end = elim (read_frame file_len valid_end rest) [
    | none ↦ ([], valid_end)
    | some (r, len) ↦
        let next = replay_loop fuel file_len (drop (8 + len) rest) (valid_end + (8 + len)) in
        (r ∷ next.0, next.1)
  ]

  unfoldable pub replay_from : List ℕ → ℕ → List WalRecord × ℕ
  replay_from file start_offset =
      replay_loop (length file) (length file) (drop start_offset file) start_offset
