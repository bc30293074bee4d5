-- ===== src/Lsm/Sstable.antt =====
-- crates/bkndb-storage-lsm/src/sstable: entries, and the reading of one block by a cursor.
pub mod Entry
pub mod Block
pub mod Lookup
pub mod Handle
pub mod Writer
pub mod Write
pub mod Cursor
use Prim.Native.Nat.{Ordering}
use Prim.Native.Nat.Ordering.{lt, eq, gt}
use bkndb.Prelude.{
  ℕ, zero, suc, ◌+◌, ◌-◌, List, [], ◌∷◌, ◌++◌, Bool, true, false, not, ◌||◌, Option, none, some,
}
use bkndb.Prelude.{length, drop, get_elem?, ltb, if◌then◌else◌, ◌==◌}
use bkndb.Prelude.Order.{bytes_cmp, is_lt, is_le}
use bkndb.Prelude.BTreeMap.{Bound, included, excluded, unbounded}
use bkndb.Prelude.BigEndian.{to_be, from_be}
use bkndb.Prelude.Slices.{slice, get_range}
use bkndb.Error.{Result, ok, err, ◌>>=◌, corruption}
use bkndb.Lsm.Memtable.{LsmValue, value, tombstone}

unfoldable pub encode_value : LsmValue → List ℕ
encode_value tombstone = 0 ∷ []
encode_value (value bytes) = 1 ∷ (to_be 4 (length bytes) ++ bytes)

unfoldable pub encode_entry : List ℕ → LsmValue → List ℕ
encode_entry key v = to_be 4 (length key) ++ (key ++ encode_value v)

-- The key, the value's byte range (none for a tombstone) as its ends, and the bytes consumed.
abbrev pub DecodedEntry : Type 0
DecodedEntry = List ℕ × Option (ℕ × ℕ) × ℕ

-- `ok_or_else(|| corrupt(...))`
abbrev pub or_corrupt {ℓ} : {A : Type ℓ} → Option A → Result A
or_corrupt none = err corruption
or_corrupt (some a) = ok a

unfoldable pub read_u32 : List ℕ → ℕ → Result ℕ
read_u32 bytes at = or_corrupt (get_range at 4 bytes) >>= λ b. ok (from_be b)

-- The `match` on the tag: the value's range, and the bytes consumed.
unfoldable pub decode_value : List ℕ → ℕ → ℕ → Result (Option (ℕ × ℕ) × ℕ)
decode_value bytes tag consumed =
    if tag == 0
    then ok (none, consumed)
    else if tag == 1
    then (read_u32 bytes consumed >>= λ vlen.
        let consumed' = consumed + 4 in
        if ltb (length bytes) (consumed' + vlen)
        then err corruption
        else ok (some (consumed', consumed' + vlen), consumed' + vlen))
    else err corruption

unfoldable pub decode_entry : List ℕ → Result DecodedEntry
decode_entry bytes = read_u32 bytes 0 >>= λ key_len.
    or_corrupt (get_range 4 key_len bytes) >>= λ key.
    or_corrupt (get_elem? bytes (4 + key_len)) >>= λ tag.
    decode_value bytes tag (4 + key_len + 1) >>= λ r. ok (key, r.0, r.1)

unfoldable pub to_lsm_value : List ℕ → Option (ℕ × ℕ) → LsmValue
to_lsm_value block none = tombstone
to_lsm_value block (some (start, end)) = value (slice start (end - start) block)

unfoldable pub below_start : List ℕ → Bound (List ℕ) → Bool
below_start key (included b) = is_lt (bytes_cmp key b)
below_start key (excluded b) = is_le (bytes_cmp key b)
below_start key unbounded = false

unfoldable pub past_end : List ℕ → Bound (List ℕ) → Bool
past_end key (included b) = not (is_le (bytes_cmp key b))
past_end key (excluded b) = not (is_lt (bytes_cmp key b))
past_end key unbounded = false

-- `value.map(|r| r.start + pos..r.end + pos)`
abbrev pub shift : ℕ → Option (ℕ × ℕ) → Option (ℕ × ℕ)
shift pos none = none
shift pos (some (start, end)) = some (start + pos, end + pos)

-- The `while` loop of `load_next_block` over one block, with fuel: an entry takes a byte at least.
unfoldable pub load_loop : ℕ → List ℕ → Bound (List ℕ) → ℕ → Result (List (List ℕ × LsmValue))
load_loop zero block start pos = ok []
load_loop (suc fuel) block start pos =
    let rest = λ (n : ℕ). load_loop fuel block start (pos + n) in
    if ltb pos (length block)
    then (decode_entry (drop pos block) >>= λ e. rest (e.2) >>= λ more.
        ok (
          if below_start e.0 start then more else (e.0, to_lsm_value block (shift pos e.1)) ∷ more))
    else ok []

unfoldable pub load_block : List ℕ → Bound (List ℕ) → Result (List (List ℕ × LsmValue))
load_block block start = load_loop (length block) block start 0

-- The `match` on `k.cmp(key)`: the key is found, or passed, or the loop goes on.
abbrev pub match_key : Ordering → LsmValue → Result (Option LsmValue) → Result (Option LsmValue)
match_key eq found rest = ok (some found)
match_key gt found rest = ok none
match_key lt found rest = rest

-- The `while` loop of `get` over the block that may hold the key, with fuel as above.
unfoldable pub search_loop : ℕ → List ℕ → List ℕ → ℕ → Result (Option LsmValue)
search_loop zero block key pos = ok none
search_loop (suc fuel) block key pos =
    let rest = λ (n : ℕ). search_loop fuel block key (pos + n) in
    if ltb pos (length block)
    then (decode_entry (drop pos block) >>= λ e.
        match_key (bytes_cmp e.0 key) (to_lsm_value block (shift pos e.1)) (rest e.2))
    else ok none

unfoldable pub search_block : List ℕ → List ℕ → Result (Option LsmValue)
search_block block key = search_loop (length block) block key 0
