-- ===== src/Lsm/Sstable/Write/Entries.antt =====
-- crates/bkndb-storage-lsm/src/sstable/mod.rs: the loop of `write` over the entries.
use mathlib.Core.Path.{subst}
use bkndb.Prelude.{
  ℕ, ◌+◌, ◌≡◌, refl, sym, ap, ◌∙◌, arith, List, [], ◌∷◌, ◌++◌, append_assoc, append-nil, some, All,
  length, length-append,
}
use bkndb.Prelude.Order.{bytes_ord}
use bkndb.Error.{ok, bind-eq-ok}
use bkndb.Lsm.Memtable.{Entry, LsmValue}
use bkndb.Lsm.Merge.Heads.{all_ok}
use bkndb.Lsm.Bloom.{BloomFilter, insert}
use bkndb.Lsm.Bloom.NoFalseNegatives.{insert_all}
use bkndb.Lsm.Sstable.Block.{EntryFits}
use bkndb.Lsm.Sstable.Writer.{push, unwrap_or}
use bkndb.Lsm.Sstable.Writer.Steps.{Written, push-IsWriting}
use bkndb.Lsm.Sstable.Write.{Crates, WriteState, write_entry, write_entries}
use bkndb.Lsm.Sstable.Write.Range.{first_key, last_key, last_key-snoc}

abbrev pub keys_of : List Entry → List (List ℕ)
keys_of [] = []
keys_of (e ∷ es) = e.0 ∷ keys_of es

insert_all-snoc :
    (f : BloomFilter) (es : List Entry) (k : List ℕ) (v : LsmValue)
    → insert_all f (keys_of (es ++ (k, v) ∷ [])) ≡ insert (insert_all f (keys_of es)) k
insert_all-snoc f [] k v = refl
insert_all-snoc f (e ∷ es) k v = insert_all-snoc (insert f e.0) es k v

pub All-keys_of :
    (P : List ℕ → Type 0) (es : List Entry) → All P (keys_of es) → All (λ e. P (e.0)) es
All-keys_of P [] a = tt
All-keys_of P (e ∷ es) a = (a.0, All-keys_of P es a.1)

module _ (c : Crates) (f : BloomFilter) where
  -- The state of `write` after the entries.
  pub record IsWritten (st : WriteState) (seen : List Entry) : Type 0 where
    pub bloom : st.bloom ≡ insert_all f (keys_of seen)
    pub min_key : st.min_key ≡ first_key seen
    pub max_key : st.max_key ≡ last_key [] seen
    pub entry_count : st.entry_count ≡ length seen
    pub writer : Written c.crc32 c.lz4 st.w seen

  first_key-snoc :
      (es : List Entry) (k : List ℕ) (v : LsmValue)
      → some (unwrap_or (first_key es) k) ≡ first_key (es ++ (k, v) ∷ [])
  first_key-snoc [] k v = refl
  first_key-snoc (e ∷ es) k v = refl

  write_entry-IsWritten :
      (st st' : WriteState) (k : List ℕ) (v : LsmValue) (seen : List Entry)
      → write_entry c st k v ≡ ok st'
      → EntryFits (k, v)
      → IsWritten st seen
      → IsWritten st' (seen ++ (k, v) ∷ [])
  unfolding write_entry
  write_entry-IsWritten st st' k v seen h fit i =
      let (w, pushed, e) = bind-eq-ok (push c.crc32 c.lz4 st.w k v) _ h in
      let next : WriteState = record {
        bloom = insert st.bloom k;
        min_key = some (unwrap_or st.min_key k);
        max_key = k;
        entry_count = st.entry_count + 1;
        w = w;
      } in
      let same : next ≡ st' = cc in
      subst (λ s. IsWritten s (seen ++ (k, v) ∷ [])) same
        (record {
          bloom = ap (λ b. insert b k) i.bloom ∙ sym (insert_all-snoc f seen k v);
          min_key = ap (λ m. some (unwrap_or m k)) i.min_key ∙ first_key-snoc seen k v;
          max_key = sym (last_key-snoc [] seen k v);
          entry_count = omega (arith, i.entry_count, length-append seen ((k, v) ∷ []));
          writer = push-IsWriting c.crc32 c.lz4 st.w w k v seen pushed fit i.writer;
        })

  pub write_entries-IsWritten :
      (es : List Entry) (st st' : WriteState) (seen : List Entry)
      → write_entries c (all_ok es) st ≡ ok st'
      → All EntryFits es
      → IsWritten st seen
      → IsWritten st' (seen ++ es)
  unfolding write_entries
  write_entries-IsWritten [] st st' seen h fits i =
      let same : st ≡ st' = cc in
      subst (λ l. IsWritten st' l) (sym (append-nil seen)) (subst (λ s. IsWritten s seen) same i)
  write_entries-IsWritten ((k, v) ∷ es) st st' seen h fits i =
      let (st1, first, rest) =
        bind-eq-ok (write_entry c st k v) (λ s. write_entries c (all_ok es) s) h in
      subst (λ l. IsWritten st' l) (append_assoc seen ((k, v) ∷ []) es)
        (write_entries-IsWritten es st1 st' (seen ++ (k, v) ∷ []) rest fits.1
          (write_entry-IsWritten st st1 k v seen first fits.0 i))
