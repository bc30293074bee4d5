-- ===== src/Lsm/Bloom.antt =====
-- crates/bkndb-storage-lsm/src/bloom.rs: the Bloom filter of an SSTable.
pub mod Bits
pub mod NoFalseNegatives
use Prim.Native.Nat.{min, max, bit_and, bit_or, bit_xor}
use bkndb.Prelude.{
  ℕ, zero, suc, ◌+◌, ◌-◌, ◌*◌, ◌/◌, ◌%◌, ◌^◌, List, [], ◌∷◌, ◌++◌, Bool, true, false, ◌&&◌, not,
  reverse, length, replicate, ◌==◌, if◌then◌else◌,
}
use bkndb.Prelude.BigEndian.{to_be, from_be}

-- The four words of SipHash.
pub record Sip : Type 0 where
  pub v0 : ℕ
  pub v1 : ℕ
  pub v2 : ℕ
  pub v3 : ℕ

wrapping_add : ℕ → ℕ → ℕ
wrapping_add a b = (a + b) % 2 ^ 64

rotate_left : ℕ → ℕ → ℕ
rotate_left x n = (x * 2 ^ n) % 2 ^ 64 + x / 2 ^ (64 - n)

round : Sip → Sip
unfolding wrapping_add rotate_left
round v =
    let a0 = wrapping_add v.v0 v.v1 in
    let a1 = bit_xor (rotate_left v.v1 13) a0 in
    let b0 = rotate_left a0 32 in
    let a2 = wrapping_add v.v2 v.v3 in
    let a3 = bit_xor (rotate_left v.v3 16) a2 in
    let c0 = wrapping_add b0 a3 in
    let b3 = bit_xor (rotate_left a3 21) c0 in
    let b2 = wrapping_add a2 a1 in
    let b1 = bit_xor (rotate_left a1 17) b2 in
    record { v0 = c0; v1 = b1; v2 = rotate_left b2 32; v3 = b3 }

compress : Sip → ℕ → Sip
unfolding round
compress v m = let w = round (record v { v3 = bit_xor v.v3 m }) in record w { v0 = bit_xor w.v0 m }

-- `u64::from_le_bytes` and `u64::to_le_bytes`
from_le : List ℕ → ℕ
from_le bytes = from_be (reverse bytes)

to_le : ℕ → List ℕ
to_le n = reverse (to_be 8 n)

-- The loop over the bytes of all parts: `buf` holds those since the last word.
feed : Sip → List ℕ → List ℕ → Sip × List ℕ
unfolding compress from_le
feed v buf [] = (v, buf)
feed v buf (byte ∷ bytes) =
    let buf' = buf ++ byte ∷ [] in
    let full = length buf' == 8 in
    feed (if full then compress v (from_le buf') else v) (if full then [] else buf') bytes

abbrev start : Sip
start = record {
  v0 = 0x736f6d6570736575;
  v1 = 0x646f72616e646f6d;
  v2 = 0x6c7967656e657261;
  v3 = 0x7465646279746573;
}

-- The parts stand behind one another in `bytes`. `last` joins the low byte of the length to the bytes
-- that are left, at most seven, so `|` adds.
unfoldable pub sip13 : List ℕ → ℕ
unfolding feed compress round from_le
sip13 bytes =
    let fed = feed start [] bytes in
    let last = length bytes % 256 * 2 ^ 56 + from_le fed.1 in
    let v = compress fed.0 last in
    let w = round (round (round (record v { v2 = bit_xor v.v2 0xff }))) in
    bit_xor (bit_xor (bit_xor w.v0 w.v1) w.v2) w.v3

unfoldable pub base_hashes : List ℕ → ℕ × ℕ
unfolding to_le
base_hashes key =
    let a = to_le (length key) ++ key in (sip13 a, sip13 (a ++ to_le 0x9E3779B97F4A7C15))

pub record BloomFilter : Type 0 where
  pub m : ℕ
  pub k : ℕ
  pub bits : List ℕ

-- The two computations in floats are arguments: the size from the number of items and the rate, and
-- the number of hashes from the size.
unfoldable pub new : ℕ → (ℕ → ℕ) → BloomFilter
new computed_m computed_k =
    let m = max computed_m 64 in
    record { m = m; k = max 1 (min (computed_k m) 32); bits = replicate ((m + 7) / 8) 0 }

-- `(0..self.k).map(...)`, with the rounds left and the index.
pub probes : ℕ → ℕ → ℕ → ℕ → ℕ → List ℕ
probes zero i h1 h2 m = []
probes (suc left) i h1 h2 m = ((h1 + (i * h2) % 2 ^ 64) % 2 ^ 64 % m) ∷ probes left (i + 1) h1 h2 m

unfoldable pub probe_bits : BloomFilter → List ℕ → List ℕ
unfolding probes
probe_bits f key = let h = base_hashes key in probes f.k 0 h.0 h.1 f.m

-- `bits[byte] |= mask` and `bits[byte] & mask != 0`; past the end the code panics.
pub or_at : List ℕ → ℕ → ℕ → List ℕ
or_at [] n mask = []
or_at (x ∷ xs) zero mask = bit_or x mask ∷ xs
or_at (x ∷ xs) (suc n) mask = x ∷ or_at xs n mask

pub has_at : List ℕ → ℕ → ℕ → Bool
has_at [] n mask = false
has_at (x ∷ xs) zero mask = not (bit_and x mask == 0)
has_at (x ∷ xs) (suc n) mask = has_at xs n mask

pub insert_bits : List ℕ → List ℕ → List ℕ
unfolding or_at
insert_bits bits [] = bits
insert_bits bits (bit ∷ rest) = insert_bits (or_at bits (bit / 8) (2 ^ (bit % 8))) rest

pub has_bits : List ℕ → List ℕ → Bool
unfolding has_at
has_bits bits [] = true
has_bits bits (bit ∷ rest) = has_at bits (bit / 8) (2 ^ (bit % 8)) && has_bits bits rest

unfoldable pub insert : BloomFilter → List ℕ → BloomFilter
unfolding insert_bits
insert f key = record f { bits = insert_bits f.bits (probe_bits f key) }

unfoldable pub might_contain : BloomFilter → List ℕ → Bool
unfolding has_bits
might_contain f key = has_bits f.bits (probe_bits f key)
