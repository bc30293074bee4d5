-- ===== src/Examples/Fixtures.antt =====
-- Stand-ins for the crates that the engine calls: a length-prefixed encoding in place of bincode,
-- and a sum of bytes in place of CRC-32.
use Prim.Native.Nat.{◌%◌}
use bkndb.Prelude.{
  ℕ, zero, suc, ◌+◌, ◌<◌, ◌^◌, ◌≡◌, refl, ap, arith, List, [], ◌∷◌, ◌++◌, Option, none, some,
}
use bkndb.Prelude.{length, take, drop, take-append, drop-append}
use bkndb.Lsm.Codec.{Bincode, Crc32}
use bkndb.Lsm.Wal.{WalRecord}

abbrev Entry : Type 0
Entry = List ℕ × Option (List ℕ)

abbrev put_entry : Entry → List ℕ → List ℕ
put_entry (k, none) rest = length k ∷ (k ++ 0 ∷ rest)
put_entry (k, some v) rest = length k ∷ (k ++ 1 ∷ length v ∷ (v ++ rest))

abbrev put_entries : List Entry → List ℕ
put_entries [] = []
put_entries (e ∷ es) = put_entry e (put_entries es)

-- The value of an entry, from its tag on, and what follows it.
abbrev get_value : List ℕ → Option (List ℕ) × List ℕ
get_value (suc t ∷ n ∷ rest) = (some (take n rest), drop n rest)
get_value (t ∷ rest) = (none, rest)
get_value [] = (none, [])

abbrev get_entries : ℕ → List ℕ → List Entry
get_entries zero bytes = []
get_entries (suc count) [] = []
get_entries (suc count) (n ∷ rest) =
    let (v, after) = get_value (drop n rest) in (take n rest, v) ∷ get_entries count after

abbrev serialize : WalRecord → List ℕ
serialize r = length r.entries ∷ put_entries r.entries

abbrev deserialize : List ℕ → Option WalRecord
deserialize [] = none
deserialize (n ∷ bytes) = some (record { entries = get_entries n bytes })

get-put_entries : (es : List Entry) → get_entries (length es) (put_entries es) ≡ es
get-put_entries [] = refl
get-put_entries ((k, none) ∷ es) =
    rw (take-append k (0 ∷ put_entries es), drop-append k (0 ∷ put_entries es))
      (ap (◌∷◌ (k, none)) (get-put_entries es))
get-put_entries ((k, some v) ∷ es) =
    rw
      (
        take-append k (1 ∷ length v ∷ (v ++ put_entries es)),
        drop-append k (1 ∷ length v ∷ (v ++ put_entries es)),
        take-append v (put_entries es),
        drop-append v (put_entries es),
      )
      (ap (◌∷◌ (k, some v)) (get-put_entries es))

pub deserialize-serialize : (r : WalRecord) → deserialize (serialize r) ≡ some r
deserialize-serialize r =
    ap (λ (es : List Entry). some (record { entries = es })) (get-put_entries r.entries)

abbrev pub plain : Bincode WalRecord
plain = record {
  serialize = serialize;
  deserialize = deserialize;
  round_trip = deserialize-serialize;
}

abbrev total : List ℕ → ℕ
total [] = 0
total (b ∷ bytes) = b + total bytes

abbrev hash : List ℕ → ℕ
hash bytes = total bytes % 2 ^ 32

pub hash_bound : (bytes : List ℕ) → hash bytes < 2 ^ 32
hash_bound bytes = omega arith

abbrev pub sum32 : Crc32
sum32 = record { hash = hash; hash_bound = hash_bound }
