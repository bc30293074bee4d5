-- ===== src/Lsm/Sstable/Writer/Blocks.antt =====
-- crates/bkndb-storage-lsm/src/sstable/format.rs: what is in the blocks that a writer has closed.
use bkndb.Prelude.{
  ℕ, ◌+◌, ◌≤◌, ◌≡◌, refl, sym, ap, ◌∙◌, arith, List, [], ◌∷◌, ◌++◌, append_assoc, append-nil, true,
  Option, some, All, length, length-append, leb, Bool-cases, if◌then◌else◌, inl, inr,
}
use bkndb.Prelude.Slices.{get_range, get_range-append, slice_within}
use bkndb.Error.{ok}
use bkndb.Lsm.Codec.{Crc32, Lz4}
use bkndb.Lsm.Memtable.{Entry, LsmValue}
use bkndb.Lsm.Sstable.{encode_entry}
use bkndb.Lsm.Sstable.Entry.{length-encode_entry}
use bkndb.Lsm.Sstable.Block.{encode_entries, EntryFits}
use bkndb.Lsm.Sstable.Handle.Runs.{FirstKey}
use bkndb.Lsm.Sstable.Writer.{
  BlockMeta, BlockWriter, too_big, compress_raw, close_block, is_some, unwrap_or,
}

module _ {ℓ} {A : Type ℓ} where
  pub get_range_more :
      (at len : ℕ) (xs ys : List A) (part : List A)
      → get_range at len xs ≡ some part
      → get_range at len (xs ++ ys) ≡ some part
  get_range_more at len xs ys part h = elim (Bool-cases (leb (at + len) (length xs))) [
    | inr e ↦ absurd (cc (rw e at h))
    | inl e ↦
        let room : leb (at + len) (length (xs ++ ys)) ≡ true =
          ground (arith, length-append xs ys) in
        let within : at + len ≤ length xs = ground arith in
        rw room (ap some (slice_within at len xs ys within) ∙ rw e at h)
  ]

-- The bytes of a block that was stored.
abbrev pub unpacked : Lz4 → BlockMeta → List ℕ → Option (List ℕ)
unpacked lz4 m stored = if m.compressed then lz4.decompress stored m.raw_len else some stored

abbrev pub FirstIfAny : List ℕ → List Entry → Type 0
FirstIfAny key [] = Unit
FirstIfAny key (e ∷ es) = key ≡ e.0

pub encode_entries-snoc :
    (es : List Entry) (k : List ℕ) (v : LsmValue)
    → encode_entries (es ++ (k, v) ∷ []) ≡ encode_entries es ++ encode_entry k v
unfolding encode_entries
encode_entries-snoc [] k v = append-nil (encode_entry k v)
encode_entries-snoc ((j, w) ∷ es) k v =
    ap (◌++◌ (encode_entry j w)) (encode_entries-snoc es k v)
    ∙ sym (append_assoc (encode_entry j w) (encode_entries es) (encode_entry k v))

pub nothing_waits : (es : List Entry) → encode_entries es ≡ [] → es ≡ []
unfolding encode_entries
nothing_waits [] h = refl
nothing_waits ((k, v) ∷ es) h = absurd (
    omega (
      arith,
      ap length h,
      length-append (encode_entry k v) (encode_entries es),
      length-encode_entry k v,
    ))

module _ (crc32 : Crc32) (lz4 : Lz4) where
  -- In the bytes that were written the block of the entries stands where its record says.
  abbrev pub Stored : List ℕ → BlockMeta → List Entry → Type 0
  Stored out m es =
      (stored : List ℕ) × (get_range m.offset m.stored_len out ≡ some stored)
      × (m.crc ≡ crc32.hash stored)
      × (unpacked lz4 m stored ≡ some (encode_entries es))
      × All EntryFits es
      × FirstKey m.first_key es

  abbrev pub AllStored : List ℕ → List BlockMeta → List (List Entry) → Type 0
  AllStored out [] [] = Unit
  AllStored out (m ∷ ms) (es ∷ ess) = Stored out m es × AllStored out ms ess
  AllStored out _ _ = ⊥

  pub AllStored-more :
      (out more : List ℕ) (ms : List BlockMeta) (ess : List (List Entry))
      → AllStored out ms ess
      → AllStored (out ++ more) ms ess
  AllStored-more out more [] [] a = tt
  AllStored-more out more [] (es ∷ ess) a = elim a [ ]
  AllStored-more out more (m ∷ ms) [] a = elim a [ ]
  AllStored-more out more (m ∷ ms) (es ∷ ess) ((stored, at, crc, raw, fits, first), a) = (
    (stored, get_range_more m.offset m.stored_len out more stored at, crc, raw, fits, first),
    AllStored-more out more ms ess a,
  )

  AllStored-snoc :
      (out : List ℕ) (ms : List BlockMeta) (ess : List (List Entry)) (m : BlockMeta)
      (es : List Entry)
      → AllStored out ms ess
      → Stored out m es
      → AllStored out (ms ++ m ∷ []) (ess ++ es ∷ [])
  AllStored-snoc out [] [] m es a s = (s, tt)
  AllStored-snoc out [] (fs ∷ ess) m es a s = elim a [ ]
  AllStored-snoc out (n ∷ ms) [] m es a s = elim a [ ]
  AllStored-snoc out (n ∷ ms) (fs ∷ ess) m es a s = (a.0, AllStored-snoc out ms ess m es a.1 s)

  -- A writer between two entries: what it has closed, and what waits in `raw`.
  pub record IsWriting (w : BlockWriter) (ess : List (List Entry)) (es : List Entry) : Type 0 where
    pub closed : AllStored w.out w.blocks ess
    pub end : length w.out ≡ w.offset
    pub waiting : w.raw ≡ encode_entries es
    pub fits : All EntryFits es
    pub first : FirstIfAny w.first_key es

  abbrev pub stored_of : BlockWriter → List ℕ
  stored_of w = unwrap_or (compress_raw lz4 w.opts w.raw) w.raw

  abbrev pub meta_of : BlockWriter → BlockMeta
  meta_of w = record {
    first_key = w.first_key;
    offset = w.offset;
    stored_len = length (stored_of w);
    raw_len = length w.raw;
    compressed = is_some (compress_raw lz4 w.opts w.raw);
    crc = crc32.hash (stored_of w);
  }

  abbrev pub closed_writer : BlockWriter → BlockWriter
  closed_writer w = record {
    out = w.out ++ stored_of w;
    opts = w.opts;
    raw = [];
    first_key = [];
    offset = w.offset + length (stored_of w);
    blocks = w.blocks ++ meta_of w ∷ [];
  }

  pub close_block-eq : (w w' : BlockWriter) → close_block crc32 lz4 w ≡ ok w' → closed_writer w ≡ w'
  unfolding close_block too_big
  close_block-eq w w' h = ground arith

  unpacked-meta_of : (w : BlockWriter) → unpacked lz4 (meta_of w) (stored_of w) ≡ some w.raw
  unfolding compress_raw
  unpacked-meta_of w = ground (arith, lz4.decompress-compress w.raw)

  pub closed_writer-IsWriting :
      (w : BlockWriter) (ess : List (List Entry)) (e : Entry) (es : List Entry)
      → IsWriting w ess (e ∷ es)
      → IsWriting (closed_writer w) (ess ++ (e ∷ es) ∷ []) []
  closed_writer-IsWriting w ess e es i = record {
    closed =
        AllStored-snoc (w.out ++ stored_of w) w.blocks ess (meta_of w) (e ∷ es)
          (AllStored-more w.out (stored_of w) w.blocks ess i.closed)
          (
            stored_of w,
            ap (λ rest. get_range w.offset (length (stored_of w)) (w.out ++ rest))
                  (sym (append-nil (stored_of w)))
                ∙ get_range-append w.out (stored_of w) [] w.offset (length (stored_of w)) i.end
                    refl,
            refl,
            unpacked-meta_of w ∙ ap some i.waiting,
            i.fits,
            i.first,
          );
    end = omega (arith, length-append w.out (stored_of w), i.end);
    waiting = unfold encode_entries in refl;
    fits = tt;
    first = tt;
  }
