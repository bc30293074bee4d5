-- ===== src/Lsm/Wal/Recovery.antt =====
-- crates/bkndb-storage-lsm/src/wal.rs: what a replay finds after commits and after a crash.
use bkndb.Prelude.{
  ℕ, zero, suc, ◌+◌, ◌≤◌, ◌<◌, ◌^◌, ◌≡◌, refl, sym, ap, ◌∙◌, arith, List, [], ◌∷◌, ◌++◌,
  append_assoc, append-nil,
}
use bkndb.Prelude.{
  All, none, some, length, take, drop, length-append, length-take, take-append, drop-append,
  drop_of_length, take_append_add,
}
use bkndb.Error.{Result, ok, ◌>>=◌, bind-eq-ok}
use bkndb.Lsm.Codec.{Bincode, Crc32}
use bkndb.Lsm.Wal.{WalRecord, frame, append, read_frame, replay_loop, replay_from}
use bkndb.Lsm.Wal.Frames.{length-frame, read_frame-whole, read_frame-cut}

module _ (bincode : Bincode WalRecord) (crc32 : Crc32) where
  -- The commits of one run of the program, in order.
  abbrev pub append_all : List ℕ → List WalRecord → Result (List ℕ)
  append_all file [] = ok file
  append_all file (r ∷ rs) = do file' ← append bincode crc32 file r; append_all file' rs

  abbrev frames : List WalRecord → List ℕ
  frames [] = []
  frames (r ∷ rs) = frame bincode crc32 (bincode.serialize r) ++ frames rs

  abbrev Fits : List WalRecord → Type 0
  Fits = All (λ r. length (bincode.serialize r) < 2 ^ 32)

  append-eq :
      (file : List ℕ) (r : WalRecord) (g : List ℕ)
      → append bincode crc32 file r ≡ ok g
      → (length (bincode.serialize r) < 2 ^ 32)
        × (g ≡ file ++ frame bincode crc32 (bincode.serialize r))
  unfolding append
  append-eq file r g h = ground arith

  append_all-eq :
      (file : List ℕ) (rs : List WalRecord) (g : List ℕ)
      → append_all file rs ≡ ok g
      → Fits rs × (g ≡ file ++ frames rs)
  append_all-eq file [] g h = (tt, cc (append-nil file))
  append_all-eq file (r ∷ rs) g h =
      let (file', first, rest) =
        bind-eq-ok (append bincode crc32 file r) (λ f. append_all f rs) h in
      let (fits, e) = append-eq file r file' first in
      let (all_fit, e') = append_all-eq file' rs g rest in
      (
        (fits, all_fit),
        rw (e', e) (append_assoc file (frame bincode crc32 (bincode.serialize r)) (frames rs)),
      )

  replay_loop-none :
      (fuel file_len : ℕ) (rest : List ℕ) (valid_end : ℕ)
      → read_frame bincode crc32 file_len valid_end rest ≡ none
      → replay_loop bincode crc32 fuel file_len rest valid_end ≡ ([], valid_end)
  unfolding replay_loop
  replay_loop-none zero file_len rest valid_end h = refl
  replay_loop-none (suc fuel) file_len rest valid_end h = rw (h, replay_loop)

  replay_loop-some :
      (fuel file_len : ℕ) (rest : List ℕ) (valid_end : ℕ) (r : WalRecord) (len : ℕ)
      → read_frame bincode crc32 file_len valid_end rest ≡ some (r, len)
      → let next =
          replay_loop bincode crc32 fuel file_len (drop (8 + len) rest) (valid_end + (8 + len)) in
        replay_loop bincode crc32 (suc fuel) file_len rest valid_end ≡ (r ∷ next.0, next.1)
  unfolding replay_loop
  replay_loop-some fuel file_len rest valid_end r len h = rw (h, replay_loop)

  replay_loop-frames :
      (rs : List WalRecord) (torn : List ℕ) (fuel file_len valid_end end : ℕ)
      → Fits rs
      → length (frames rs ++ torn) ≤ fuel
      → end ≡ valid_end + length (frames rs)
      → end ≤ file_len
      → file_len < 2 ^ 64
      → read_frame bincode crc32 file_len end torn ≡ none
      → replay_loop bincode crc32 fuel file_len (frames rs ++ torn) valid_end ≡ (rs, end)
  replay_loop-frames [] torn fuel file_len valid_end end fits enough e room small cut =
      let p : valid_end ≡ end = omega arith in rw p (replay_loop-none fuel file_len torn end cut)
  replay_loop-frames (r ∷ rs) torn zero file_len valid_end end fits enough e room small cut =
      absurd (
        omega (
          arith,
          length-append (frame bincode crc32 (bincode.serialize r)) (frames rs ++ torn),
          length-frame bincode crc32 (bincode.serialize r),
          enough',
        ))
    where
      enough' : length (frame bincode crc32 (bincode.serialize r) ++ (frames rs ++ torn)) ≤ zero
      enough' = rw append_assoc at enough
  replay_loop-frames (r ∷ rs) torn (suc fuel) file_len valid_end end fits enough e room small cut =
      let payload = bincode.serialize r in
      let whole = frame bincode crc32 payload in
      let size = length-append whole (frames rs) in
      let head = length-frame bincode crc32 payload in
      let more = length-append whole (frames rs ++ torn) in
      let split = append_assoc whole (frames rs) torn in
      let read =
        read_frame-whole bincode crc32 payload (frames rs ++ torn) r file_len valid_end fits.0
          (bincode.round_trip r) (omega (arith, size, head)) small in
      let next =
        replay_loop-frames rs torn fuel file_len (valid_end + (8 + length payload)) end fits.1
          (omega (arith, more, head, ap length split)) (omega (arith, size, head)) room small cut in
      ap (λ rest. replay_loop bincode crc32 (suc fuel) file_len rest valid_end) split
      ∙ replay_loop-some fuel file_len (whole ++ (frames rs ++ torn)) valid_end r (length payload)
          read
      ∙ rw (drop_of_length (8 + length payload) whole (frames rs ++ torn) head, next)

  replay-frames :
      (pre torn : List ℕ) (rs : List WalRecord) (file : List ℕ)
      → Fits rs
      → file ≡ (pre ++ frames rs) ++ torn
      → length file < 2 ^ 64
      → read_frame bincode crc32 (length file) (length (pre ++ frames rs)) torn ≡ none
      → replay_from bincode crc32 file (length pre) ≡ (rs, length (pre ++ frames rs))
  replay-frames pre torn rs file fits e small cut =
      let e' : file ≡ pre ++ (frames rs ++ torn) = e ∙ append_assoc pre (frames rs) torn in
      let sizes = length-append (pre ++ frames rs) torn in
      let sizes' = length-append (frames rs) torn in
      let sizes'' = length-append pre (frames rs) in
      unfold replay_from in
      rw (ap (drop (length pre)) e' ∙ drop-append pre (frames rs ++ torn)) (
        replay_loop-frames rs torn (length file) (length file) (length pre)
          (length (pre ++ frames rs)) fits (omega (arith, ap length e, sizes, sizes', sizes''))
          sizes'' (omega (arith, ap length e, sizes)) small cut)

  read_frame-nil : (file_len valid_end : ℕ) → read_frame bincode crc32 file_len valid_end [] ≡ none
  unfolding read_frame
  read_frame-nil file_len valid_end = refl

  -- Every commit that finished is replayed, in order, and the log ends where the file ends, if the
  -- file is shorter than 2^64 bytes.
  pub replay-append_all :
      (pre : List ℕ) (rs : List WalRecord) (f : List ℕ)
      → append_all pre rs ≡ ok f
      → length f < 2 ^ 64
      → replay_from bincode crc32 f (length pre) ≡ (rs, length f)
  replay-append_all pre rs f h small =
      let (fits, e) = append_all-eq pre rs f h in
      replay-frames pre [] rs f fits (e ∙ sym (append-nil _)) small (read_frame-nil _ _) ∙ rw e

  -- A crash in the middle of a commit, which leaves any part of its frame but the last byte: the
  -- replay finds the commits before it, and the offset at which they end, where recovery cuts the
  -- file, if the file with the whole frame is shorter than 2^64 bytes.
  pub replay_torn :
      (pre : List ℕ) (rs : List WalRecord) (f : List ℕ) (r : WalRecord) (g : List ℕ) (n : ℕ)
      → append_all pre rs ≡ ok f
      → append bincode crc32 f r ≡ ok g
      → length f + n < length g
      → length g < 2 ^ 64
      → (replay_from bincode crc32 (take (length f + n) g) (length pre) ≡ (rs, length f))
        × (take (length f) (take (length f + n) g) ≡ f)
  replay_torn pre rs f r g n h h' short small =
      let (fits, e) = append_all-eq pre rs f h in
      let (fit, e') = append-eq f r g h' in
      let new = frame bincode crc32 (bincode.serialize r) in
      let cut : take (length f + n) g ≡ f ++ take n new =
        ap (take (length f + n)) e' ∙ take_append_add f new n in
      let size = length-append f (take n new) in
      let size' = length-take n new in
      let size'' = length-append f new in
      let e_len = ap length e in
      let room : n < length new = omega (arith, size'', ap length e') in
      (
        rw cut (
            replay-frames pre (take n new) rs (f ++ take n new) fits (ap (λ x. x ++ take n new) e)
              (omega (arith, size, size', room))
              (read_frame-cut bincode crc32 (bincode.serialize r) _ _ n fit room
                (omega (arith, size, size', room, e_len)))
            ∙ rw e),
        rw cut (take-append f (take n new)),
      )
