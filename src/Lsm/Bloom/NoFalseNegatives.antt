-- ===== src/Lsm/Bloom/NoFalseNegatives.antt =====
-- crates/bkndb-storage-lsm/src/bloom.rs: a filter never denies a key that was inserted.
use native.Mathlib.Nat.{mod-lt}
use bkndb.Prelude.{
  ℕ, zero, suc, ◌+◌, ◌*◌, ◌/◌, ◌%◌, ◌<◌, ◌^◌, ◌≡◌, refl, ◌∙◌, arith, List, [], ◌∷◌, true, All,
  length, replicate, length-replicate, and_left, and_right,
}
use bkndb.Prelude.Bytes.{IsBytes}
use bkndb.Lsm.Bloom.{
  BloomFilter, new, probes, probe_bits, base_hashes, or_at, has_at, insert_bits, has_bits, insert,
  might_contain,
}
use bkndb.Lsm.Bloom.Bits.{has_at-or_at, has_at-or_at_other, or_at-IsBytes, length-or_at}

-- Every bit of the filter has its place in a byte.
pub record IsValid (f : BloomFilter) : Type 0 where
  pub positive : 0 < f.m
  pub room : length f.bits ≡ (f.m + 7) / 8
  pub bytes : IsBytes f.bits

abbrev Places : List ℕ → List ℕ → Type 0
Places bits rest = All (λ bit. bit / 8 < length bits) rest

insert_bits-keeps :
    (bits : List ℕ) (rest : List ℕ) (bit : ℕ)
    → IsBytes bits
    → has_at bits (bit / 8) (2 ^ (bit % 8)) ≡ true
    → has_at (insert_bits bits rest) (bit / 8) (2 ^ (bit % 8)) ≡ true
unfolding insert_bits
insert_bits-keeps bits [] bit b was = was
insert_bits-keeps bits (i ∷ rest) bit b was =
    insert_bits-keeps (or_at bits (i / 8) (2 ^ (i % 8))) rest bit
      (or_at-IsBytes bits (i / 8) (i % 8) b (omega arith))
      (has_at-or_at_other bits (i / 8) (i % 8) (bit / 8) (bit % 8) b (omega arith) (omega arith)
        was)

length-insert_bits : (bits rest : List ℕ) → length (insert_bits bits rest) ≡ length bits
unfolding insert_bits
length-insert_bits bits [] = refl
length-insert_bits bits (i ∷ rest) =
    length-insert_bits (or_at bits (i / 8) (2 ^ (i % 8))) rest
    ∙ length-or_at bits (i / 8) (2 ^ (i % 8))

insert_bits-IsBytes : (bits rest : List ℕ) → IsBytes bits → IsBytes (insert_bits bits rest)
unfolding insert_bits
insert_bits-IsBytes bits [] b = b
insert_bits-IsBytes bits (i ∷ rest) b =
    insert_bits-IsBytes (or_at bits (i / 8) (2 ^ (i % 8))) rest
      (or_at-IsBytes bits (i / 8) (i % 8) b (omega arith))

Places-mono :
    (bits bits' rest : List ℕ) → length bits' ≡ length bits → Places bits rest → Places bits' rest
Places-mono bits bits' [] e h = tt
Places-mono bits bits' (i ∷ rest) e h = (omega (arith, h.0), Places-mono bits bits' rest e h.1)

has_bits-insert_bits :
    (bits rest : List ℕ)
    → IsBytes bits
    → Places bits rest
    → has_bits (insert_bits bits rest) rest ≡ true
unfolding has_bits insert_bits
has_bits-insert_bits bits [] b h = refl
has_bits-insert_bits bits (i ∷ rest) b h =
    let next = or_at bits (i / 8) (2 ^ (i % 8)) in
    let next_bytes = or_at-IsBytes bits (i / 8) (i % 8) b (omega arith) in
    let here : has_at (insert_bits next rest) (i / 8) (2 ^ (i % 8)) ≡ true =
      insert_bits-keeps next rest i next_bytes
        (has_at-or_at bits (i / 8) (i % 8) b (omega arith) h.0) in
    let more : has_bits (insert_bits next rest) rest ≡ true =
      has_bits-insert_bits next rest next_bytes
        (Places-mono bits next rest (length-or_at bits (i / 8) (2 ^ (i % 8))) h.1) in
    rw (here, more)

has_bits-keeps :
    (bits rest wanted : List ℕ)
    → IsBytes bits
    → has_bits bits wanted ≡ true
    → has_bits (insert_bits bits rest) wanted ≡ true
unfolding has_bits
has_bits-keeps bits rest [] b was = refl
has_bits-keeps bits rest (i ∷ wanted) b was =
    let at = has_at bits (i / 8) (2 ^ (i % 8)) in
    let here : has_at (insert_bits bits rest) (i / 8) (2 ^ (i % 8)) ≡ true =
      insert_bits-keeps bits rest i b (and_left at (has_bits bits wanted) was) in
    let more : has_bits (insert_bits bits rest) wanted ≡ true =
      has_bits-keeps bits rest wanted b (and_right at (has_bits bits wanted) was) in
    rw (here, more)

probes-Places :
    (left i h1 h2 m : ℕ) (bits : List ℕ)
    → 0 < m
    → length bits ≡ (m + 7) / 8
    → Places bits (probes left i h1 h2 m)
unfolding probes
probes-Places zero i h1 h2 m bits p e = tt
probes-Places (suc left) i h1 h2 m bits p e = (
  let low = mod-lt ((h1 + (i * h2) % 2 ^ 64) % 2 ^ 64) p in omega (arith, low),
  probes-Places left (i + 1) h1 h2 m bits p e,
)

module _ {f : BloomFilter} (valid : IsValid f) where
  pub insert-IsValid : (key : List ℕ) → IsValid (insert f key)
  unfolding insert
  insert-IsValid key = record {
    positive = valid.positive;
    room = length-insert_bits f.bits (probe_bits f key) ∙ valid.room;
    bytes = insert_bits-IsBytes f.bits (probe_bits f key) valid.bytes;
  }

  own_key : (key : List ℕ) → might_contain (insert f key) key ≡ true
  unfolding insert might_contain probe_bits
  own_key key =
      let h = base_hashes key in
      has_bits-insert_bits f.bits (probes f.k 0 h.0 h.1 f.m) valid.bytes
        (probes-Places f.k 0 h.0 h.1 f.m f.bits valid.positive valid.room)

  old_key :
      (key other : List ℕ) → might_contain f key ≡ true → might_contain (insert f other) key ≡ true
  unfolding insert might_contain probe_bits
  old_key key other was =
      has_bits-keeps f.bits (probe_bits f other) (probe_bits f key) valid.bytes was

abbrev pub insert_all : BloomFilter → List (List ℕ) → BloomFilter
insert_all f [] = f
insert_all f (key ∷ keys) = insert_all (insert f key) keys

kept :
    (keys : List (List ℕ)) (f : BloomFilter) (key : List ℕ)
    → IsValid f
    → might_contain f key ≡ true
    → might_contain (insert_all f keys) key ≡ true
kept [] f key v was = was
kept (k ∷ keys) f key v was = kept keys (insert f k) key (insert-IsValid v k) (old_key v key k was)

every_key_found :
    (keys : List (List ℕ)) (f : BloomFilter)
    → IsValid f
    → All (λ key. might_contain (insert_all f keys) key ≡ true) keys
every_key_found [] f v = tt
every_key_found (key ∷ keys) f v = (
  kept keys (insert f key) key (insert-IsValid v key) (own_key v key),
  every_key_found keys (insert f key) (insert-IsValid v key),
)

zeros-IsBytes : (n : ℕ) → IsBytes (replicate n 0)
zeros-IsBytes zero = tt
zeros-IsBytes (suc n) = (omega arith, zeros-IsBytes n)

new-IsValid : (m : ℕ) (k : ℕ → ℕ) → IsValid (new m k)
unfolding new
new-IsValid m k = record {
  positive = omega arith;
  room = length-replicate _ 0;
  bytes = zeros-IsBytes _;
}

-- A new filter of any size that the keys of a table were inserted into reports every one of them.
pub might_contain-insert_all :
    (m : ℕ) (k : ℕ → ℕ) (keys : List (List ℕ))
    → All (λ key. might_contain (insert_all (new m k) keys) key ≡ true) keys
might_contain-insert_all m k keys = every_key_found keys (new m k) (new-IsValid m k)
