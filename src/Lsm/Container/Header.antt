-- ===== src/Lsm/Container/Header.antt =====
-- crates/bkndb-storage-lsm/src/container.rs: which header a reader finds after a header write, and
-- after one that a crash cut short.
use mathlib.Core.Path.{subst}
use bkndb.Prelude.{
  ℕ, zero, suc, ◌+◌, ◌-◌, ◌*◌, ◌<◌, ◌≤◌, ◌^◌, ◌≡◌, refl, sym, ap, ◌∙◌, arith, List, Option, none,
  some,
}
use bkndb.Prelude.{false, length, ltb}
use bkndb.Prelude.Slices.{slice}
use bkndb.Error.{Result, ok, err, ◌>>=◌}
use bkndb.Lsm.Codec.{Crc32}
use bkndb.Lsm.Container.{
  HeaderSlot, write_bytes, encode_slot, decode_slot, choose_slot, read_header, write_header,
}
use bkndb.Lsm.Container.Bytes.{
  length-write_bytes, slice-write_bytes_here, slice-write_bytes_before, slice-write_bytes_after,
}
use bkndb.Lsm.Container.Slot.{written, length-encode_slot, decode_slot-encode_slot}

module _ (crc32 : Crc32) where
  abbrev pub slot_at : List ℕ → ℕ → Result (Option HeaderSlot)
  slot_at file slot = decode_slot crc32 slot (slice (slot * 64) 64 file)

  -- A slot that yields to the header with the given sequence number.
  abbrev pub Yields : ℕ → Result (Option HeaderSlot) → Type 0
  Yields seq (ok none) = Unit
  Yields seq (ok (some o)) = o.seq < seq
  Yields seq (err e) = ⊥

  -- `h` is the live header of the file.
  pub record IsLive (file : List ℕ) (h : HeaderSlot) : Type 0 where
    pub long : 128 ≤ length file
    pub slot_bound : h.slot < 2
    pub decoded : slot_at file h.slot ≡ ok (some h)
    pub other : Yields h.seq (slot_at file (1 - h.slot))

  choose_first :
      (len : ℕ) (h : HeaderSlot) (o : Result (Option HeaderSlot))
      → Yields h.seq o
      → (do b ← o; choose_slot len (some h) b) ≡ ok (some h)
  unfolding choose_slot
  choose_first len h (ok none) y = refl
  choose_first len h (ok (some o)) y = ground arith
  choose_first len h (err e) y = absurd y

  choose_second :
      (len : ℕ) (h : HeaderSlot) (o : Result (Option HeaderSlot))
      → Yields h.seq o
      → (do a ← o; choose_slot len a (some h)) ≡ ok (some h)
  unfolding choose_slot
  choose_second len h (ok none) y = refl
  choose_second len h (ok (some o)) y = ground arith
  choose_second len h (err e) y = absurd y

  pub read_header-IsLive :
      (file : List ℕ) (h : HeaderSlot) → IsLive file h → read_header crc32 file ≡ ok (some h)
  read_header-IsLive file h live = go h.slot live.slot_bound live.decoded live.other
    where
      long : ltb (length file) 128 ≡ false
      long = ground (arith, live.long)

      go :
          (slot : ℕ)
          → slot < 2
          → slot_at file slot ≡ ok (some h)
          → Yields h.seq (slot_at file (1 - slot))
          → read_header crc32 file ≡ ok (some h)
      go zero b d o = unfold read_header in rw (long, d) (choose_first (length file) h _ o)
      go (suc zero) b d o = unfold read_header in rw (long, d) (choose_second (length file) h _ o)
      go (suc (suc n)) b d o = absurd (omega arith)

  -- One half of the header is rewritten, and the other one still decodes as before.
  other_slot :
      (file : List ℕ) (slot : ℕ) (bytes : List ℕ)
      → 128 ≤ length file
      → slot < 2
      → length bytes ≡ 64
      → slot_at (write_bytes file ((1 - slot) * 64) bytes) slot ≡ slot_at file slot
  other_slot file zero bytes long b e =
      ap (decode_slot crc32 0)
        (slice-write_bytes_before file 64 bytes (omega arith) 0 64 (omega arith))
  other_slot file (suc zero) bytes long b e =
      let at : 0 + length bytes + 0 ≡ 64 = omega arith in
      ap (decode_slot crc32 1) (
        subst (λ n. slice n 64 (write_bytes file 0 bytes) ≡ slice n 64 file) at
          (slice-write_bytes_after file 0 bytes (omega arith) 0 64))
  other_slot file (suc (suc n)) bytes long b e = absurd (omega arith)

  this_slot :
      (file : List ℕ) (slot : ℕ) (bytes : List ℕ)
      → 128 ≤ length file
      → slot < 2
      → length bytes ≡ 64
      → slot_at (write_bytes file (slot * 64) bytes) slot ≡ decode_slot crc32 slot bytes
  this_slot file slot bytes long b e = ap (decode_slot crc32 slot) (
      subst (λ n. slice (slot * 64) n (write_bytes file (slot * 64) bytes) ≡ bytes) e
        (slice-write_bytes_here file (slot * 64) bytes (omega arith)))

  -- A crash while the header is written leaves in the inactive slot bytes that fail its checksum, or
  -- hold an older header: the live header stays live.
  pub torn_header :
      (file : List ℕ) (h : HeaderSlot) (torn : List ℕ)
      → IsLive file h
      → length torn ≡ 64
      → Yields h.seq (decode_slot crc32 (1 - h.slot) torn)
      → IsLive (write_bytes file ((1 - h.slot) * 64) torn) h
  torn_header file h torn live e y = record {
    long =
        let same =
          length-write_bytes file ((1 - h.slot) * 64) torn
            (omega (arith, live.long, live.slot_bound))
            (omega (arith, live.long, live.slot_bound)) in
        omega (arith, live.long, same);
    slot_bound = live.slot_bound;
    decoded = other_slot file h.slot torn live.long live.slot_bound e ∙ live.decoded;
    other =
        subst (Yields h.seq) (sym (this_slot file (1 - h.slot) torn live.long (omega arith) e)) y;
  }

  -- The header that `write_header` writes.
  abbrev pub next_header : HeaderSlot → ℕ → List ℕ → HeaderSlot
  next_header h manifest_offset manifest =
      written crc32 (h.seq + 1) manifest_offset manifest (1 - h.slot)

  -- Bytes in the inactive slot that decode to a newer header make that header the live one.
  pub newer_header :
      (file : List ℕ) (h next : HeaderSlot) (bytes : List ℕ)
      → IsLive file h
      → length bytes ≡ 64
      → next.slot ≡ 1 - h.slot
      → h.seq < next.seq
      → decode_slot crc32 (1 - h.slot) bytes ≡ ok (some next)
      → IsLive (write_bytes file ((1 - h.slot) * 64) bytes) next
  newer_header file h next bytes live size same_slot newer d = record {
    long =
        let same =
          length-write_bytes file ((1 - h.slot) * 64) bytes
            (omega (arith, live.long, live.slot_bound))
            (omega (arith, live.long, live.slot_bound, size)) in
        omega (arith, live.long, same);
    slot_bound = omega (arith, same_slot);
    decoded =
        subst (λ slot. slot_at (write_bytes file ((1 - h.slot) * 64) bytes) slot ≡ ok (some next))
          (sym same_slot) (this_slot file (1 - h.slot) bytes live.long (omega arith) size ∙ d);
    other = subst (Yields next.seq) (sym older) newer;
  }
    where
      older : slot_at (write_bytes file ((1 - h.slot) * 64) bytes) (1 - next.slot) ≡ ok (some h)
      older =
          let back : 1 - next.slot ≡ h.slot = omega (arith, live.slot_bound, same_slot) in
          rw back (other_slot file h.slot bytes live.long live.slot_bound size ∙ live.decoded)

  -- After `write_header` over a live header the new header is live, with the next sequence number,
  -- in the slot that was inactive, and the function returns its number and slot, if that number,
  -- the offset and the length of the manifest are below 2^64.
  pub write_header-IsLive :
      (file : List ℕ) (h : HeaderSlot) (manifest_offset : ℕ) (manifest : List ℕ)
      → IsLive file h
      → h.seq + 1 < 2 ^ 64
      → manifest_offset < 2 ^ 64
      → length manifest < 2 ^ 64
      → IsLive
          (write_header crc32 file h.seq h.slot manifest_offset manifest).0
          (next_header h manifest_offset manifest)
  unfolding write_header
  write_header-IsLive file h manifest_offset manifest live h_seq h_offset h_len =
      newer_header file h (next_header h manifest_offset manifest)
        (encode_slot crc32 (h.seq + 1) manifest_offset manifest) live
        (length-encode_slot crc32 (h.seq + 1) manifest_offset manifest) refl (omega arith)
        (decode_slot-encode_slot crc32 (h.seq + 1) manifest_offset manifest (1 - h.slot) h_seq
          h_offset h_len)
