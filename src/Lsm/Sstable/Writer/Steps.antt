-- ===== src/Lsm/Sstable/Writer/Steps.antt =====
-- crates/bkndb-storage-lsm/src/sstable/format.rs: what `push` and `finish_block` add to a table.
use mathlib.Core.Path.{subst}
use bkndb.Prelude.{
  ℕ, ◌≡◌, refl, sym, ap, ◌∙◌, List, [], ◌∷◌, ◌++◌, append_assoc, append-nil, All-append, length,
  leb, Bool-cases, inl, inr,
}
use Prim.Native.Nat.{max}
use bkndb.Error.{ok}
use bkndb.Lsm.Codec.{Crc32, Lz4}
use bkndb.Lsm.Memtable.{Entry, LsmValue}
use bkndb.Lsm.Sstable.{encode_entry}
use bkndb.Lsm.Sstable.Block.{encode_entries, EntryFits}
use bkndb.Lsm.Sstable.Handle.Runs.{flatten}
use bkndb.Lsm.Sstable.Writer.{BlockWriter, close_block, finish_block, add_entry, push}
use bkndb.Lsm.Sstable.Writer.Blocks.{
  IsWriting, FirstIfAny, encode_entries-snoc, nothing_waits, close_block-eq,
  closed_writer-IsWriting,
}

pub flatten-snoc :
    (ess : List (List Entry)) (es : List Entry) → flatten (ess ++ es ∷ []) ≡ flatten ess ++ es
flatten-snoc [] es = append-nil es
flatten-snoc (fs ∷ ess) es =
    ap (◌++◌ fs) (flatten-snoc ess es) ∙ sym (append_assoc fs (flatten ess) es)

encode_entries-nil : encode_entries [] ≡ []
unfolding encode_entries
encode_entries-nil = refl

module _ (crc32 : Crc32) (lz4 : Lz4) where
  abbrev pub Written : BlockWriter → List Entry → Type 0
  Written w seen =
      (ess : List (List Entry)) × (es : List Entry) × IsWriting crc32 lz4 w ess es
      × (flatten ess ++ es ≡ seen)

  close-IsWriting :
      (w w' : BlockWriter) (ess : List (List Entry)) (es : List Entry) (b : ℕ) (raw : List ℕ)
      → w.raw ≡ b ∷ raw
      → close_block crc32 lz4 w ≡ ok w'
      → IsWriting crc32 lz4 w ess es
      → (ess' : List (List Entry)) × IsWriting crc32 lz4 w' ess' []
        × (flatten ess' ≡ flatten ess ++ es)
  close-IsWriting w w' ess [] b raw e h i = absurd (cc (e, i.waiting, encode_entries-nil))
  close-IsWriting w w' ess (x ∷ es) b raw e h i = (
    ess ++ (x ∷ es) ∷ [],
    subst (λ n. IsWriting crc32 lz4 n (ess ++ (x ∷ es) ∷ []) []) (close_block-eq crc32 lz4 w w' h)
        (closed_writer-IsWriting crc32 lz4 w ess x es i),
    flatten-snoc ess (x ∷ es),
  )

  pub finish_block-IsWriting :
      (w w' : BlockWriter) (ess : List (List Entry)) (es : List Entry)
      → finish_block crc32 lz4 w ≡ ok w'
      → IsWriting crc32 lz4 w ess es
      → (ess' : List (List Entry)) × IsWriting crc32 lz4 w' ess' []
        × (flatten ess' ≡ flatten ess ++ es)
  unfolding finish_block
  finish_block-IsWriting w w' ess es h i = go w.raw refl h
    where
      go :
          (raw : List ℕ)
          → w.raw ≡ raw
          → (elim raw [ [] ↦ ok w | b ∷ raw ↦ close_block crc32 lz4 w ]) ≡ ok w'
          → (ess' : List (List Entry)) × IsWriting crc32 lz4 w' ess' []
            × (flatten ess' ≡ flatten ess ++ es)
      go [] e h =
          let none_left : es ≡ [] = nothing_waits es (sym i.waiting ∙ e) in
          let same : w ≡ w' = cc in
          (
            ess,
            subst (λ n. IsWriting crc32 lz4 n ess []) same
                (subst (λ l. IsWriting crc32 lz4 w ess l) none_left i),
            sym (ap (◌++◌ (flatten ess)) none_left ∙ append-nil (flatten ess)),
          )
      go (b ∷ raw) e h = close-IsWriting w w' ess es b raw e h i

  add_entry-IsWriting :
      (w : BlockWriter) (k : List ℕ) (v : LsmValue) (ess : List (List Entry)) (es : List Entry)
      → EntryFits (k, v)
      → IsWriting crc32 lz4 w ess es
      → IsWriting crc32 lz4 (add_entry w k v) ess (es ++ (k, v) ∷ [])
  unfolding add_entry
  add_entry-IsWriting w k v ess es fit i = record {
    closed = i.closed;
    end = i.end;
    waiting = ap (λ raw. raw ++ encode_entry k v) i.waiting ∙ sym (encode_entries-snoc es k v);
    fits = All-append EntryFits es ((k, v) ∷ []) i.fits (fit, tt);
    first = go es i.waiting i.first w.raw refl;
  }
    where
      go :
          (es : List Entry)
          → w.raw ≡ encode_entries es
          → FirstIfAny w.first_key es
          → (raw : List ℕ) → w.raw ≡ raw
          → FirstIfAny (elim raw [ [] ↦ k | b ∷ rest ↦ w.first_key ]) (es ++ (k, v) ∷ [])
      go [] waits first [] e = refl
      go [] waits first (b ∷ raw) e = absurd (cc (e, waits, encode_entries-nil))
      go (x ∷ es) waits first [] e = absurd (cc (nothing_waits (x ∷ es) (sym waits ∙ e)))
      go (x ∷ es) waits first (b ∷ raw) e = first

  pub push-IsWriting :
      (w w' : BlockWriter) (k : List ℕ) (v : LsmValue) (seen : List Entry)
      → push crc32 lz4 w k v ≡ ok w'
      → EntryFits (k, v)
      → Written w seen
      → Written w' (seen ++ (k, v) ∷ [])
  unfolding push
  push-IsWriting w w' k v seen h fit (ess, es, i, e) =
      let added = add_entry-IsWriting w k v ess es fit i in
      let grown : flatten ess ++ (es ++ (k, v) ∷ []) ≡ seen ++ (k, v) ∷ [] =
        sym (append_assoc (flatten ess) es ((k, v) ∷ [])) ∙ ap (λ l. l ++ (k, v) ∷ []) e in
      let w1 : BlockWriter = add_entry w k v in
      elim (Bool-cases (leb (max w1.opts.block_size 1) (length w1.raw))) [
        | inl full ↦
            let (ess', i', e') =
              finish_block-IsWriting w1 w' ess (es ++ (k, v) ∷ []) (rw full at h) added in
            (ess', [], i', append-nil (flatten ess') ∙ e' ∙ grown)
        | inr room ↦
            let same : w1 ≡ w' = cc (rw room at h) in
            (
              ess,
              es ++ (k, v) ∷ [],
              subst (λ n. IsWriting crc32 lz4 n ess (es ++ (k, v) ∷ [])) same added,
              grown,
            )
      ]
