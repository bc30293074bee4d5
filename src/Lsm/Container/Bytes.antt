-- ===== src/Lsm/Container/Bytes.antt =====
-- crates/bkndb-storage-lsm/src/container.rs: what a write at an offset leaves in the file.
use bkndb.Prelude.{
  ℕ, ◌+◌, ◌-◌, ◌≤◌, ◌≡◌, refl, sym, ap, ◌∙◌, arith, List, ◌++◌, append-nil, take-append-drop,
  length, take, drop, length-append, length-take, length-drop, take_of_length, drop_add,
  drop_of_length,
}
use bkndb.Prelude.Slices.{slice, slice_within}
use bkndb.Lsm.Container.{write_bytes}

module _ (file : List ℕ) (offset : ℕ) (bytes : List ℕ) (inside : offset ≤ length file) where
  write_bytes-eq :
      write_bytes file offset bytes
      ≡ take offset file ++ (bytes ++ drop (offset + length bytes) file)
  unfolding write_bytes
  write_bytes-eq =
      let e : offset - length file ≡ 0 = omega arith in
      rw e (
        ap (λ x. x ++ (bytes ++ drop (offset + length bytes) file)) (append-nil (take offset file)))

  length-head : length (take offset file) ≡ offset
  length-head = omega (arith, length-take offset file)

  pub length-write_bytes :
      offset + length bytes ≤ length file → length (write_bytes file offset bytes) ≡ length file
  length-write_bytes h = rw write_bytes-eq (
      omega (
        arith,
        length-head,
        length-append (take offset file) (bytes ++ drop (offset + length bytes) file),
        length-append bytes (drop (offset + length bytes) file),
        length-drop (offset + length bytes) file,
      ))

  pub length-write_bytes_ge :
      (length file ≤ length (write_bytes file offset bytes))
      × (offset + length bytes ≤ length (write_bytes file offset bytes))
  length-write_bytes_ge =
      let size = ap length write_bytes-eq in
      let parts = length-append (take offset file) (bytes ++ drop (offset + length bytes) file) in
      let tail = length-append bytes (drop (offset + length bytes) file) in
      let rest = length-drop (offset + length bytes) file in
      (
        omega (arith, length-head, size, parts, tail, rest),
        omega (arith, length-head, size, parts, tail, rest),
      )

  -- What was written is read back, and what lies before it or behind it stays.
  pub slice-write_bytes_here : slice offset (length bytes) (write_bytes file offset bytes) ≡ bytes
  slice-write_bytes_here = rw write_bytes-eq (
      ap (take (length bytes)) (drop_of_length offset _ _ length-head)
      ∙ take_of_length (length bytes) bytes _ refl)

  pub slice-write_bytes_before :
      (at len : ℕ)
      → at + len ≤ offset
      → slice at len (write_bytes file offset bytes) ≡ slice at len file
  slice-write_bytes_before at len h = rw write_bytes-eq (
      slice_within at len (take offset file) _ (omega (arith, length-head))
      ∙ sym (slice_within at len (take offset file) (drop offset file) (omega (arith, length-head)))
      ∙ ap (slice at len) (take-append-drop offset file))

  pub slice-write_bytes_after :
      (at len : ℕ)
      → slice (offset + length bytes + at) len (write_bytes file offset bytes)
        ≡ slice (offset + length bytes + at) len file
  slice-write_bytes_after at len = rw write_bytes-eq (
      ap (take len) (
        drop_add (offset + length bytes) at _
        ∙ ap (drop at) (
            drop_add offset (length bytes) _
            ∙ ap (drop (length bytes)) (drop_of_length offset _ _ length-head)
            ∙ drop_of_length (length bytes) bytes _ refl)
        ∙ sym (drop_add (offset + length bytes) at file)))
