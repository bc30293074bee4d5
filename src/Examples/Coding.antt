-- ===== src/Examples/Coding.antt =====
-- A stand-in for bincode at any type: values as lists of numbers, with the lengths of lists in front.
use bkndb.Prelude.{
  ℕ, zero, suc, ◌≡◌, refl, List, [], ◌∷◌, Bool, true, false, ◌==◌, none, some, length,
}
use bkndb.Lsm.Codec.{Bincode, Lz4}
use bkndb.Lsm.Bloom.{BloomFilter}
use bkndb.Lsm.Manifest.{Manifest, SstableRef}
use bkndb.Lsm.Sstable.Writer.{BlockMeta}
use bkndb.Lsm.Sstable.Write.{Crates, IndexV2, LegacyIndex}
use bkndb.Lsm.Engine.Faults.{Io}
use bkndb.Examples.Fixtures.{sum32}

pub record Coding (A : Type 0) : Type 0 where
  pub put_value : A → List ℕ → List ℕ
  pub take_value : List ℕ → A × List ℕ
  pub take-put : (a : A) (rest : List ℕ) → take_value (put_value a rest) ≡ (a, rest)

abbrev number : Coding ℕ
number = record {
  put_value = λ n rest. n ∷ rest;
  take_value = λ bytes. elim bytes [ [] ↦ (0, []) | n ∷ rest ↦ (n, rest) ];
  take-put = λ n rest. refl;
}

module _ {A B : Type 0} (a : Coding A) (b : Coding B) where
  abbrev take_both : List ℕ → (A × B) × List ℕ
  take_both bytes =
      let first = a.take_value bytes in
      let second = b.take_value first.1 in ((first.0, second.0), second.1)

  pub take_both-put :
      (x : A) (y : B) (rest : List ℕ)
      → take_both (a.put_value x (b.put_value y rest)) ≡ ((x, y), rest)
  take_both-put x y rest = rw (a.take-put x (b.put_value y rest), b.take-put y rest) refl

  abbrev both : Coding (A × B)
  both = record {
    put_value = λ p rest. a.put_value p.0 (b.put_value p.1 rest);
    take_value = take_both;
    take-put = λ p rest. take_both-put p.0 p.1 rest;
  }

-- A type that is another one by two functions.
module _ {A B : Type 0} (a : Coding A) (to : A → B) (from : B → A)
    (inverse : (y : B) → to (from y) ≡ y) where
  abbrev take_via : List ℕ → B × List ℕ
  take_via bytes = let t = a.take_value bytes in (to t.0, t.1)

  pub take_via-put : (y : B) (rest : List ℕ) → take_via (a.put_value (from y) rest) ≡ (y, rest)
  take_via-put y rest = rw (a.take-put (from y) rest, inverse y) refl

  abbrev via : Coding B
  via = record {
    put_value = λ y rest. a.put_value (from y) rest;
    take_value = take_via;
    take-put = take_via-put;
  }

module _ {A : Type 0} (a : Coding A) where
  abbrev put_all : List A → List ℕ → List ℕ
  put_all [] rest = rest
  put_all (x ∷ xs) rest = a.put_value x (put_all xs rest)

  abbrev take_all : ℕ → List ℕ → List A × List ℕ
  take_all zero bytes = ([], bytes)
  take_all (suc n) bytes =
      let first = a.take_value bytes in let more = take_all n first.1 in (first.0 ∷ more.0, more.1)

  pub take_all-put :
      (xs : List A) (rest : List ℕ) → take_all (length xs) (put_all xs rest) ≡ (xs, rest)
  take_all-put [] rest = refl
  take_all-put (x ∷ xs) rest = rw (a.take-put x (put_all xs rest), take_all-put xs rest) refl

  abbrev take_counted : List ℕ → List A × List ℕ
  take_counted [] = ([], [])
  take_counted (n ∷ bytes) = take_all n bytes

  abbrev sequence : Coding (List A)
  sequence = record {
    put_value = λ xs rest. length xs ∷ put_all xs rest;
    take_value = take_counted;
    take-put = take_all-put;
  }

  pub bincode_round : (x : A) → some (a.take_value (a.put_value x [])).0 ≡ some x
  bincode_round x = rw (a.take-put x []) refl

  abbrev pub bincode_of : Bincode A
  bincode_of = record {
    serialize = λ x. a.put_value x [];
    deserialize = λ bytes. some (a.take_value bytes).0;
    round_trip = bincode_round;
  }

abbrev bytes_code : Coding (List ℕ)
bytes_code = sequence number

abbrev of_number : ℕ → Bool
of_number n = n == 1

abbrev to_number : Bool → ℕ
to_number true = 1
to_number false = 0

pub of_number-to_number : (b : Bool) → of_number (to_number b) ≡ b
of_number-to_number true = refl
of_number-to_number false = refl

abbrev flag : Coding Bool
flag = via number of_number to_number of_number-to_number

abbrev filter_code : Coding BloomFilter
filter_code =
    via (both number (both number bytes_code)) (λ p. record { m = p.0; k = p.1.0; bits = p.1.1 })
      (λ f. (f.m, (f.k, f.bits))) (λ f. refl)

abbrev meta_code : Coding BlockMeta
meta_code =
    via (both bytes_code (both number (both number (both number (both flag number)))))
      (λ p. record {
        first_key = p.0;
        offset = p.1.0;
        stored_len = p.1.1.0;
        raw_len = p.1.1.1.0;
        compressed = p.1.1.1.1.0;
        crc = p.1.1.1.1.1;
      })
      (λ m. (m.first_key, (m.offset, (m.stored_len, (m.raw_len, (m.compressed, m.crc))))))
      (λ m. refl)

abbrev index_code : Coding IndexV2
index_code =
    via (both bytes_code (both bytes_code (both number (sequence meta_code))))
      (λ p. record { min_key = p.0; max_key = p.1.0; entry_count = p.1.1.0; blocks = p.1.1.1 })
      (λ i. (i.min_key, (i.max_key, (i.entry_count, i.blocks)))) (λ i. refl)

abbrev legacy_code : Coding LegacyIndex
legacy_code =
    via (both bytes_code (both bytes_code (sequence (both bytes_code number))))
      (λ p. (p.0, p.1.0, p.1.1)) (λ i. (i.0, (i.1, i.2))) (λ i. refl)

abbrev ref_code : Coding SstableRef
ref_code =
    via (both number (both number number))
      (λ p. record { generation = p.0; offset = p.1.0; length = p.1.1 })
      (λ r. (r.generation, (r.offset, r.length))) (λ r. refl)

abbrev pub manifest_code : Coding Manifest
manifest_code =
    via (both number (both (sequence ref_code) number))
      (λ p. record { next_sstable_id = p.0; sstables = p.1.0; wal_region_start = p.1.1 })
      (λ m. (m.next_sstable_id, (m.sstables, m.wal_region_start))) (λ m. refl)

-- No compression.
abbrev pub stored : Lz4
stored = record {
  compress = λ raw. raw;
  decompress = λ bytes n. some bytes;
  decompress-compress = λ raw. refl;
}

-- The filter has 100 bits and 1 hash.
abbrev pub crates : Crates
crates = record {
  crc32 = sum32;
  lz4 = stored;
  bloom_code = bincode_of filter_code;
  index_code = bincode_of index_code;
  legacy_code = bincode_of legacy_code;
  bloom_m = λ n. 100;
  bloom_k = λ n m. 1;
}

abbrev pub manifest_bincode : Bincode Manifest
manifest_bincode = bincode_of manifest_code

-- An operating system that fails no write.
abbrev pub quiet : Io
quiet = record { log = none; table = none; publish = none; compaction = none }
