-- ===== src/Examples/SstableRuns.antt =====
-- crates/bkndb-storage-lsm/src/sstable at a concrete block.
use bkndb.Prelude.{ℕ, ◌≡◌, refl, arith, List, [], ◌∷◌, ◌++◌, true, false, none, some, All, length}
use bkndb.Prelude.Order.{bytes_cmp, bytes_ord}
use bkndb.Prelude.BigEndian.{to_be}
use bkndb.Prelude.BTreeMap
use bkndb.Prelude.BTreeMap.{included}
use bkndb.Error.{ok}
use bkndb.Lsm.Memtable.{value, tombstone}
use bkndb.Lsm.Codec.{Lz4}
use bkndb.Lsm.Bloom.{new, might_contain}
use bkndb.Lsm.Bloom.NoFalseNegatives.{insert_all, might_contain-insert_all}
use bkndb.Lsm.Sstable.{encode_value, encode_entry, decode_entry, load_block, search_block}
use bkndb.Lsm.Sstable.Lookup.{search_block-encode_entries}
use bkndb.Lsm.Sstable.Handle.{Block, SstableHandle, read_block, wrong_crc, get}
use bkndb.Lsm.Sstable.Handle.Runs.{flatten}
use bkndb.Lsm.Sstable.Handle.Get.{IsBuilt, get_lem}
use bkndb.Examples.Fixtures.{sum32}
use bkndb.Lsm.Sstable.Entry.{range_of, decode_entry-encode_entry}
use bkndb.Lsm.Sstable.Block.{Entry, encode_entries, from_start, load_block-encode_entries}

abbrev key : List ℕ
key = 7 ∷ 8 ∷ []

decode_entry-encode_entry_example :
    decode_entry (encode_entry key (value (1 ∷ [])) ++ 5 ∷ [])
    ≡ ok (key, range_of key (value (1 ∷ [])), length (encode_entry key (value (1 ∷ []))))
decode_entry-encode_entry_example =
    decode_entry-encode_entry key (5 ∷ []) (value (1 ∷ [])) (omega arith) (omega arith)

abbrev entries : List Entry
entries = (key, value (1 ∷ [])) ∷ (9 ∷ [], tombstone) ∷ []

load_block-encode_entries_example :
    load_block (encode_entries entries) (included (8 ∷ []))
    ≡ ok (from_start (included (8 ∷ [])) entries)
load_block-encode_entries_example =
    load_block-encode_entries (included (8 ∷ [])) entries (omega arith)

search_block-encode_entries_example :
    search_block (encode_entries entries) (9 ∷ []) ≡ ok (BTreeMap.get entries (9 ∷ []))
unfolding bytes_cmp
search_block-encode_entries_example =
    search_block-encode_entries (9 ∷ []) entries (omega arith) ((refl, tt), (tt, tt))

abbrev keys : List (List ℕ)
keys = key ∷ (9 ∷ []) ∷ []

might_contain-insert_all_example :
    All (λ k. might_contain (insert_all (new 100 (λ m. 7)) keys) k ≡ true) keys
might_contain-insert_all_example = might_contain-insert_all 100 (λ m. 7) keys

-- No compression, behind a header of two bytes, in one block.
abbrev stored : Lz4
stored = record {
  compress = λ raw. raw;
  decompress = λ bytes n. some bytes;
  decompress-compress = λ raw. refl;
}

abbrev block : Block
block = record {
  first_key = key;
  offset = 1;
  stored_len = 18;
  raw_len = 18;
  compressed = false;
  crc = none;
}

abbrev table : SstableHandle
table = record {
  mmap = 0 ∷ 0 ∷ encode_entries entries;
  base_offset = 1;
  blob_len = 100;
  bloom = insert_all (new 100 (λ m. 7)) keys;
  blocks = block ∷ [];
  entry_count = some 2;
  min_key = key;
  max_key = 9 ∷ [];
  generation = 1;
}

abbrev lists : List (List Entry)
lists = entries ∷ []

block_read : read_block sum32 stored table block ≡ ok (encode_entries entries)
unfolding read_block wrong_crc encode_entries encode_entry encode_value to_be
block_read = refl

table-IsBuilt : IsBuilt sum32 stored table lists
unfolding bytes_cmp
table-IsBuilt = record {
  blocks = ((block_read, omega arith, refl), tt);
  sorted = ((refl, tt), (tt, tt));
  reported = might_contain-insert_all 100 (λ m. 7) keys;
  not_below = (refl, (refl, tt));
  not_above = (refl, (refl, tt));
}

get_lem_example : get sum32 stored table (9 ∷ []) ≡ ok (BTreeMap.get (flatten lists) (9 ∷ []))
get_lem_example = get_lem sum32 stored table lists table-IsBuilt (9 ∷ [])
