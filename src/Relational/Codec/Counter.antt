-- ===== src/Relational/Codec/Counter.antt =====
-- crates/bkndb-core/src/relational/codec.rs: the counter of automatic primary keys.
use bkndb.Prelude.{
  ℕ, ◌+◌, ◌<◌, ◌^◌, ◌≡◌, ap, ◌∙◌, arith, List, [], ◌∷◌, false, Option, none, some, length, ltb,
  ◌==◌, inl, inr, Bool-cases, if◌then◌else◌,
}
use bkndb.Prelude.BigEndian.{to_be, from_be, from_be-to_be, length-to_be}
use bkndb.Prelude.Int.{ℤ, pos, negsuc, to_i64}
use bkndb.Error.{Result, ok, err, ◌>>=◌, bind-eq-ok, encoding}
use bkndb.Storage.{StorageWriteTx}

-- `META`
abbrev pub meta : List ℕ
meta = b'm' ∷ b'e' ∷ b't' ∷ b'a' ∷ []

abbrev pub row_counter_key : List ℕ → List ℕ
row_counter_key table = b'r' ∷ b'e' ∷ b'l' ∷ b'n' ∷ b'e' ∷ b'x' ∷ b't' ∷ b':' ∷ table

unfoldable pub decode_counter : Option (List ℕ) → Result ℕ
decode_counter none = ok 1
decode_counter (some bytes) = if length bytes == 8 then ok (from_be bytes) else err encoding

module _ (s : StorageWriteTx) where
  open s use {Tx, get, put, get-put}

  -- The `match` on `wtx.get(META, &key)`
  unfoldable pub current : Tx → List ℕ → Result ℕ
  current wtx table = get wtx meta (row_counter_key table) >>= decode_counter

  unfoldable pub reserve_pks : Tx → List ℕ → ℕ → Result (ℤ × Tx)
  reserve_pks wtx table count =
      if count == 0
      then ok (pos 0, wtx)
      else (current wtx table >>= λ c.
          put wtx meta (row_counter_key table) (to_be 8 (c + count)) >>= λ wtx'.
          ok (to_i64 c, wtx'))

  -- `put` where the key asks for more than the counter has
  raise : Tx → List ℕ → ℕ → ℕ → Result Tx
  raise wtx table needed c =
      if ltb c needed then put wtx meta (row_counter_key table) (to_be 8 needed) else ok wtx

  unfoldable pub bump_pk_counter_past : Tx → List ℕ → ℤ → Result Tx
  unfolding raise
  bump_pk_counter_past wtx table (negsuc n) = ok wtx
  bump_pk_counter_past wtx table (pos pk) =
      if ltb pk 1 then ok wtx else (current wtx table >>= λ c. raise wtx table (pk + 1) c)

  current-put :
      (wtx wtx' : Tx) (table : List ℕ) (n : ℕ)
      → n < 2 ^ 64
      → put wtx meta (row_counter_key table) (to_be 8 n) ≡ ok wtx'
      → current wtx' table ≡ ok n
  unfolding current decode_counter
  current-put wtx wtx' table n h e = rw (
    get-put wtx wtx' meta (row_counter_key table) (to_be 8 n) e,
    length-to_be 8 n,
    from_be-to_be 8 n h,
  )

  -- A reservation of one key at least, where it succeeds and the sum stays below 2^64, hands out the
  -- keys from the counter on and moves the counter past them.
  pub reserve_pks_lem :
      (wtx wtx' : Tx) (table : List ℕ) (count c : ℕ) (first : ℤ)
      → 0 < count
      → current wtx table ≡ ok c
      → c + count < 2 ^ 64
      → reserve_pks wtx table count ≡ ok (first, wtx')
      → (first ≡ to_i64 c) × (current wtx' table ≡ ok (c + count))
  unfolding reserve_pks
  reserve_pks_lem wtx wtx' table count c first some_ e room h =
      let more : (count == 0) ≡ false = ground arith in
      let h' : (put wtx meta (row_counter_key table) (to_be 8 (c + count)) >>= λ w.
      ok (to_i64 c, w))
          ≡ ok (first, wtx') =
        rw (more, e) at h in
      let parts =
        bind-eq-ok (put wtx meta (row_counter_key table) (to_be 8 (c + count)))
          (λ w. ok (to_i64 c, w)) h' in
      let same : parts.0 ≡ wtx' = cc (parts.2) in
      (cc (parts.2), current-put wtx wtx' table (c + count) room (parts.1 ∙ ap ok same))

  -- A bump past an explicit positive key below 2^63, where it succeeds, leaves the counter at the
  -- greater of its old value and the key's successor.
  pub bump_pk_counter_past_lem :
      (wtx wtx' : Tx) (table : List ℕ) (pk c : ℕ)
      → 0 < pk
      → pk < 2 ^ 63
      → current wtx table ≡ ok c
      → bump_pk_counter_past wtx table (pos pk) ≡ ok wtx'
      → current wtx' table ≡ ok (if ltb c (pk + 1) then pk + 1 else c)
  unfolding bump_pk_counter_past
  bump_pk_counter_past_lem wtx wtx' table pk c some_ small e h =
      let go_on : ltb pk 1 ≡ false = ground arith in
      let h' : (if ltb c (pk + 1)
            then put wtx meta (row_counter_key table) (to_be 8 (pk + 1))
            else ok wtx)
          ≡ ok wtx' =
        rw (go_on, e) at h in
      elim (Bool-cases (ltb c (pk + 1))) [
        | inl raised ↦
            rw raised (current-put wtx wtx' table (pk + 1) (omega arith) (rw raised at h'))
        | inr kept ↦
            let same : ok wtx ≡ ok wtx' = rw kept at h' in
            let q : wtx ≡ wtx' = cc in rw (kept, ← q) e
      ]
