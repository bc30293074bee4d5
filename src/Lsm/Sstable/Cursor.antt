-- ===== src/Lsm/Sstable/Cursor.antt =====
-- crates/bkndb-storage-lsm/src/sstable/cursor.rs, and `cursor` of mod.rs: a range read over one table.
pub mod Drain
pub mod Filter
pub mod Outside
pub mod Scan
use bkndb.Prelude.{
  ℕ, zero, suc, ◌+◌, List, [], ◌∷◌, ◌++◌, Bool, true, false, not, ◌||◌, Option, none, some, length,
  leb, if◌then◌else◌,
}
use bkndb.Prelude.Order.{bytes_cmp, is_lt, is_le}
use bkndb.Prelude.BTreeMap.{Bound, included, excluded, unbounded}
use bkndb.Error.{Result, ok, err, ◌>>=◌}
use bkndb.Lsm.Codec.{Crc32, Lz4}
use bkndb.Lsm.Memtable.{Entry}
use bkndb.Lsm.Merge.{EntryIter}
use bkndb.Lsm.Sstable.{load_block, past_end}
use bkndb.Lsm.Sstable.Handle.{SstableHandle, block_bytes, block_for, is_empty}
use bkndb.Lsm.Sstable.Writer.{unwrap_or}

pub record SstCursor : Type 0 where
  pub sst : SstableHandle
  pub next_block : ℕ
  pub buf : List Entry
  pub start : Bound (List ℕ)
  pub end : Bound (List ℕ)
  pub done : Bool

-- The two tests of `cursor` on the ends of the range.
unfoldable pub ends_below : Bound (List ℕ) → List ℕ → Bool
ends_below (included k) min_key = is_lt (bytes_cmp k min_key)
ends_below (excluded k) min_key = is_lt (bytes_cmp k min_key)
ends_below unbounded min_key = false

unfoldable pub starts_past : Bound (List ℕ) → List ℕ → Bool
starts_past (included k) max_key = not (is_le (bytes_cmp k max_key))
starts_past (excluded k) max_key = not (is_le (bytes_cmp k max_key))
starts_past unbounded max_key = false

unfoldable pub first_block : SstableHandle → Bound (List ℕ) → ℕ
first_block h (included k) = unwrap_or (block_for h k) 0
first_block h (excluded k) = unwrap_or (block_for h k) 0
first_block h unbounded = 0

unfoldable pub cursor : SstableHandle → Bound (List ℕ) → Bound (List ℕ) → SstCursor
cursor h start end =
    let empty = is_empty h.blocks || (ends_below end h.min_key || starts_past start h.max_key) in
    record {
      sst = h;
      next_block = if empty then length h.blocks else first_block h start;
      buf = [];
      start = start;
      end = end;
      done = empty;
    }

module _ (crc32 : Crc32) (lz4 : Lz4) where
  -- After an error the cursor is done, so what it holds then does not matter.
  unfoldable pub load_next_block : SstCursor → Result SstCursor
  load_next_block c = block_bytes crc32 lz4 c.sst c.next_block >>= λ block.
      load_block block c.start >>= λ es.
      ok (record c { next_block = c.next_block + 1; buf = c.buf ++ es })

  -- The `loop` of `next`, with fuel for the blocks that it may load.
  unfoldable pub next : ℕ → SstCursor → Option (Result Entry) × SstCursor
  next zero c = (none, c)
  next (suc fuel) c =
      let continue = λ (c' : SstCursor). next fuel c' in
      if c.done then (none, c) else elim c.buf [
        | e ∷ buf ↦
            if past_end e.0 c.end
            then (none, record c { buf = buf; done = true })
            else (some (ok e), record c { buf = buf })
        | [] ↦
            if leb (length c.sst.blocks) c.next_block
            then (none, record c { done = true })
            else elim (load_next_block c) [
              | err e ↦ (some (err e), record c { done = true })
              | ok c' ↦ continue c'
            ]
      ]

  -- Everything that the cursor yields, with fuel for the entries.
  unfoldable pub drain : ℕ → SstCursor → EntryIter
  drain zero c = []
  drain (suc fuel) c =
      let step = next (suc (length c.sst.blocks)) c in
      let rest = drain fuel step.1 in elim step.0 [ none ↦ [] | some r ↦ r ∷ rest ]
