-- ===== src/Lsm/Container/Torn.antt =====
-- crates/bkndb-storage-lsm/src/container.rs: a header slot that a crash left half written, its first
-- bytes of the new slot and the others of the old one.
use mathlib.Core.Path.{subst}
use bkndb.Prelude.{
  ℕ, zero, suc, ◌<◌, ◌≤◌, ◌≡◌, refl, sym, ap, ◌∙◌, arith, List, [], ◌∷◌, ◌++◌, false, none, ◌⊎◌,
  inl, inr, Bool-cases,
}
use bkndb.Prelude.{length, take, drop, replicate, length-take, take-take_le, take_all, ◌==◌, ==_iff}
use bkndb.Prelude.Order.{bytes_cmp, bytes_cmp-IsTotal}
use bkndb.Prelude.BigEndian.{to_be, from_be, from_be-to_be, length-to_be}
use bkndb.Prelude.Slices.{slice, slice-take, slice_within}
use bkndb.Error.{ok}
use bkndb.Lsm.Codec.{Crc32}
use bkndb.Lsm.Container.{format_version, magic, slot_fields, encode_slot, check_slot, decode_slot}
use bkndb.Lsm.Container.Slot.{version_head, length-encode_slot}
use bkndb.Lsm.Container.Header.{Yields}

abbrev pub torn : ℕ → List ℕ → List ℕ → List ℕ
torn n old new = take n new ++ drop n old

-- The first bytes of a slot that is written in the current format.
abbrev pub IsCurrent : List ℕ → Type 0
IsCurrent buf = take 12 buf ≡ magic ++ to_be 4 format_version

-- A slot was written before, or it is zero and the crash does not cut the version in two.
abbrev pub CanTear : List ℕ → ℕ → Type 0
CanTear old n = IsCurrent old ⊎ ((old ≡ replicate 64 0) × (n < 8 ⊎ 12 ≤ n))

-- Where old and new begin alike, so does the torn slot.
take-torn :
    (m n : ℕ) (old new : List ℕ)
    → length old ≡ length new
    → take m old ≡ take m new
    → take m (torn n old new) ≡ take m new
take-torn m zero old new l h = h
take-torn m (suc n) [] [] l h = refl
take-torn m (suc n) [] (x ∷ new) l h = absurd (omega arith)
take-torn m (suc n) (y ∷ old) [] l h = absurd (omega arith)
take-torn zero (suc n) (y ∷ old) (x ∷ new) l h = refl
take-torn (suc m) (suc n) (y ∷ old) (x ∷ new) l h =
    ap (◌∷◌ x) (take-torn m n old new (omega arith) (ap (drop 1) h))

take-torn_ge :
    (m n : ℕ) (old new : List ℕ) → m ≤ n → m ≤ length new → take m (torn n old new) ≡ take m new
take-torn_ge m n old new h l =
    slice_within 0 m (take n new) (drop n old) (omega (arith, length-take n new))
    ∙ take-take_le m n new h

module _ (crc32 : Crc32) (slot : ℕ) where
  -- The last 20 bytes of a slot are not read.
  decode_slot-take :
      (buf : List ℕ) → decode_slot crc32 slot (take 44 buf) ≡ decode_slot crc32 slot buf
  decode_slot-take buf =
      unfold decode_slot check_slot in
      rw
        (
          slice-take 0 8 44 buf (omega arith),
          slice-take 8 4 44 buf (omega arith),
          slice-take 12 8 44 buf (omega arith),
          slice-take 20 8 44 buf (omega arith),
          slice-take 28 8 44 buf (omega arith),
          slice-take 36 4 44 buf (omega arith),
          slice-take 40 4 44 buf (omega arith),
          slice-take 0 36 44 buf (omega arith),
          slice-take 0 40 44 buf (omega arith),
        )
        refl

  pub decode_slot-same :
      (a b : List ℕ) → take 44 a ≡ take 44 b → decode_slot crc32 slot a ≡ decode_slot crc32 slot b
  decode_slot-same a b e =
      sym (decode_slot-take a) ∙ ap (decode_slot crc32 slot) e ∙ decode_slot-take b

  -- A slot of the current format whose checksum fails is skipped.
  decode_slot-mismatch :
      (buf : List ℕ)
      → IsCurrent buf
      → (crc32.hash (take 40 buf) == from_be (slice 40 4 buf)) ≡ false
      → decode_slot crc32 slot buf ≡ ok none
  decode_slot-mismatch buf head differs =
      let front : take 8 buf ≡ magic =
        sym (take-take_le 8 12 buf (omega arith)) ∙ ap (take 8) head in
      let version : slice 8 4 buf ≡ to_be 4 format_version =
        sym (slice-take 8 4 12 buf (omega arith))
        ∙ ap (slice 8 4) head
        ∙ take_all 4 (to_be 4 format_version) (omega (arith, length-to_be 4 format_version)) in
      unfold decode_slot check_slot in
      rw
        (
          front,
          bytes_cmp-IsTotal.self_equal magic,
          version,
          from_be-to_be 4 format_version (omega arith),
          differs,
        )
        refl

  module _ (seq manifest_offset : ℕ) (manifest old : List ℕ) where
    abbrev new : List ℕ
    new = encode_slot crc32 seq manifest_offset manifest

    -- Less than the magic over a slot of zeros is no magic.
    torn_magic : (n : ℕ) → n < 8 → decode_slot crc32 slot (torn n (replicate 64 0) new) ≡ ok none
    unfolding decode_slot encode_slot slot_fields bytes_cmp
    torn_magic zero h = refl
    torn_magic (suc zero) h = refl
    torn_magic (suc (suc zero)) h = refl
    torn_magic (suc (suc (suc zero))) h = refl
    torn_magic (suc (suc (suc (suc zero)))) h = refl
    torn_magic (suc (suc (suc (suc (suc zero))))) h = refl
    torn_magic (suc (suc (suc (suc (suc (suc zero)))))) h = refl
    torn_magic (suc (suc (suc (suc (suc (suc (suc zero))))))) h = refl
    torn_magic (suc (suc (suc (suc (suc (suc (suc (suc n)))))))) h = absurd (omega arith)

    torn-IsCurrent :
        (n : ℕ) → length old ≡ 64 → IsCurrent old ⊎ (12 ≤ n) → IsCurrent (torn n old new)
    torn-IsCurrent n size (inl current) =
        take-torn 12 n old new
          (omega (arith, size, length-encode_slot crc32 seq manifest_offset manifest))
          (current ∙ sym (version_head crc32 seq manifest_offset manifest))
        ∙ version_head crc32 seq manifest_offset manifest
    torn-IsCurrent n size (inr past) =
        take-torn_ge 12 n old new past
          (omega (arith, length-encode_slot crc32 seq manifest_offset manifest))
        ∙ version_head crc32 seq manifest_offset manifest

    -- A torn slot is skipped or holds the old header, or it holds the new one.
    pub torn_slot :
        (n live : ℕ)
        → length old ≡ 64
        → Yields crc32 live (decode_slot crc32 slot old)
        → CanTear old n
        → (crc32.hash (take 40 (torn n old new)) ≡ from_be (slice 40 4 (torn n old new))
            → (take 44 (torn n old new) ≡ take 44 old) ⊎ (take 44 (torn n old new) ≡ take 44 new))
        → Yields crc32 live (decode_slot crc32 slot (torn n old new))
          ⊎ (decode_slot crc32 slot (torn n old new) ≡ decode_slot crc32 slot new)
    torn_slot n live size y can catches = by can
      where
        buf : List ℕ
        buf = torn n old new

        by_checksum :
            (crc32.hash (take 40 (torn n old new)) ≡ from_be (slice 40 4 (torn n old new))
              → (take 44 (torn n old new) ≡ take 44 old) ⊎ (take 44 (torn n old new) ≡ take 44 new))
            → IsCurrent (torn n old new)
            → Yields crc32 live (decode_slot crc32 slot (torn n old new))
              ⊎ (decode_slot crc32 slot (torn n old new) ≡ decode_slot crc32 slot new)
        by_checksum catches head =
            elim (Bool-cases
              (crc32.hash (take 40 (torn n old new)) == from_be (slice 40 4 (torn n old new)))) [
                | inr differs ↦ inl (
                    subst (Yields crc32 live)
                      (sym (decode_slot-mismatch (torn n old new) head differs)) tt)
                | inl same ↦ (elim (catches ((==_iff _ _).0 same)) [
                  | inl e ↦
                      inl (
                        subst (Yields crc32 live) (sym (decode_slot-same (torn n old new) old e)) y)
                  | inr e ↦ inr (decode_slot-same (torn n old new) new e)
                ])
              ]

        by :
            CanTear old n
            → Yields crc32 live (decode_slot crc32 slot (torn n old new))
              ⊎ (decode_slot crc32 slot (torn n old new) ≡ decode_slot crc32 slot new)
        by (inl was) = by_checksum catches (torn-IsCurrent n size (inl was))
        by (inr (zeros, inr past)) = by_checksum catches (torn-IsCurrent n size (inr past))
        by (inr (zeros, inl few)) = inl (
            subst (λ o. Yields crc32 live (decode_slot crc32 slot (torn n o new))) (sym zeros)
              (subst (Yields crc32 live) (sym (torn_magic n few)) tt))
