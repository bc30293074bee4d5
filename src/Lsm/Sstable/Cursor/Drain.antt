-- ===== src/Lsm/Sstable/Cursor/Drain.antt =====
-- crates/bkndb-storage-lsm/src/sstable/cursor.rs: what `next` yields while the blocks last.
use bkndb.Prelude.{
  ℕ, zero, suc, ◌+◌, ◌<◌, ◌≤◌, ◌≡◌, refl, sym, ap, ◌∙◌, arith, List, [], ◌∷◌, ◌++◌, true, false,
  Option, none, some, length, length-drop, drop, get_elem?, leb, if◌then◌else◌, Bool-cases, ◌⊎◌,
  inl, inr,
}
use bkndb.Prelude.BTreeMap.{Bound}
use bkndb.Error.{Result, ok}
use bkndb.Lsm.Codec.{Crc32, Lz4}
use bkndb.Lsm.Memtable.{Entry}
use bkndb.Lsm.Merge.Heads.{all_ok}
use bkndb.Lsm.Sstable.{past_end, below_start}
use bkndb.Lsm.Sstable.Block.{from_start, load_block-encode_entries}
use bkndb.Lsm.Sstable.Handle.{Block, SstableHandle, block_bytes}
use bkndb.Lsm.Sstable.Handle.Runs.{flatten}
use bkndb.Lsm.Sstable.Handle.Get.{AllHold, Holds}
use bkndb.Lsm.Sstable.Cursor.{SstCursor, load_next_block, next, drain}

-- The entries up to the end of the range.
unfoldable pub until_end : Bound (List ℕ) → List Entry → List Entry
until_end end [] = []
until_end end (e ∷ es) = let rest = until_end end es in if past_end e.0 end then [] else e ∷ rest

module _ {ℓ} {A : Type ℓ} where
  next_of_drop :
      (xs : List A) (n : ℕ) (x : A) (rest : List A)
      → drop n xs ≡ x ∷ rest
      → (get_elem? xs n ≡ some x) × (drop (n + 1) xs ≡ rest) × (n < length xs)
  next_of_drop [] zero x rest h = absurd (cc)
  next_of_drop [] (suc n) x rest h = absurd (cc)
  next_of_drop (y ∷ xs) zero x rest h = (cc, cc, omega arith)
  next_of_drop (y ∷ xs) (suc n) x rest h =
      let (at, more, room) = next_of_drop xs n x rest h in
      (at, let e : suc n + 1 ≡ suc (n + 1) = omega arith in rw e more, omega (arith, room))

  length_of_drop : (xs : List A) (n : ℕ) → drop n xs ≡ [] → length xs ≤ n
  length_of_drop [] n h = omega arith
  length_of_drop (x ∷ xs) zero h = absurd (cc)
  length_of_drop (x ∷ xs) (suc n) h = omega (arith, length_of_drop xs n h)

pub from_start-append :
    (lo : Bound (List ℕ)) (es fs : List Entry)
    → from_start lo (es ++ fs) ≡ from_start lo es ++ from_start lo fs
unfolding from_start
from_start-append lo [] fs = refl
from_start-append lo (e ∷ es) fs = elim (Bool-cases (below_start (e.0) lo)) [
  | inl b ↦ rw b (from_start-append lo es fs)
  | inr b ↦ rw b (ap (◌∷◌ e) (from_start-append lo es fs))
]

module _ (crc32 : Crc32) (lz4 : Lz4) (h : SstableHandle) (lo hi : Bound (List ℕ)) where
  -- A cursor that is not done.
  abbrev pub at_block : ℕ → List Entry → SstCursor
  at_block n buf = record { sst = h; next_block = n; buf = buf; start = lo; end = hi; done = false }

  -- What the cursor has before it.
  abbrev pub ahead : List Entry → List (List Entry) → List Entry
  ahead buf ess = buf ++ from_start lo (flatten ess)

  load_lem :
      (n : ℕ) (b : Block) (es : List Entry)
      → get_elem? h.blocks n ≡ some b
      → Holds crc32 lz4 h b es
      → load_next_block crc32 lz4 (at_block n []) ≡ ok (at_block (n + 1) (from_start lo es))
  unfolding load_next_block block_bytes
  load_lem n b es at (read, fits, first) = rw (at, read, load_block-encode_entries lo es fits) refl

  abbrev Ends : ℕ → List Entry → ℕ → List (List Entry) → Type 0
  Ends n buf fuel ess =
      (until_end hi (ahead buf ess) ≡ []) × ((next crc32 lz4 fuel (at_block n buf)).0 ≡ none)

  abbrev Yields : ℕ → List Entry → ℕ → List (List Entry) → Type 0
  Yields n buf fuel ess =
      (e : Entry) × (n' : ℕ) × (buf' : List Entry) × (ess' : List (List Entry)) × (next crc32 lz4
          fuel (at_block n buf)
        ≡ (some (ok e), at_block n' buf'))
      × (ahead buf ess ≡ e ∷ ahead buf' ess')
      × (past_end e.0 hi ≡ false)
      × AllHold crc32 lz4 h (drop n' h.blocks) ess'

  next-buffered :
      (fuel n : ℕ) (e : Entry) (buf : List Entry) (ess : List (List Entry))
      → AllHold crc32 lz4 h (drop n h.blocks) ess
      → Ends n (e ∷ buf) (suc fuel) ess ⊎ Yields n (e ∷ buf) (suc fuel) ess
  unfolding next until_end
  next-buffered fuel n e buf ess a = elim (Bool-cases (past_end e.0 hi)) [
    | inl past ↦ inl (rw past refl, rw past refl)
    | inr inside ↦ inr (e, n, buf, ess, rw inside refl, refl, inside, a)
  ]

  next-last : (fuel n : ℕ) → drop n h.blocks ≡ [] → Ends n [] (suc fuel) []
  unfolding next until_end
  next-last fuel n d =
      let stop : leb (length h.blocks) n ≡ true = ground (arith, length_of_drop h.blocks n d) in
      (unfold from_start in refl, rw stop refl)

  next-load :
      (fuel n : ℕ) (b : Block) (es : List Entry)
      → get_elem? h.blocks n ≡ some b
      → n < length h.blocks
      → Holds crc32 lz4 h b es
      → next crc32 lz4 (suc fuel) (at_block n [])
        ≡ next crc32 lz4 fuel (at_block (n + 1) (from_start lo es))
  unfolding next
  next-load fuel n b es at room holds =
      let more : leb (length h.blocks) n ≡ false = ground (arith, room) in
      rw (more, load_lem n b es at holds) refl

  next_lem :
      (fuel n : ℕ) (buf : List Entry) (blocks : List Block) (ess : List (List Entry))
      → drop n h.blocks ≡ blocks
      → AllHold crc32 lz4 h blocks ess
      → length blocks < fuel
      → Ends n buf fuel ess ⊎ Yields n buf fuel ess
  next_lem zero n buf blocks ess d a f = absurd (omega (arith, f))
  next_lem (suc fuel) n (e ∷ buf) blocks ess d a f = next-buffered fuel n e buf ess (rw d a)
  next_lem (suc fuel) n [] [] [] d a f = inl (next-last fuel n d)
  next_lem (suc fuel) n [] [] (es ∷ ess) d a f = elim a [ ]
  next_lem (suc fuel) n [] (b ∷ blocks) [] d a f = elim a [ ]
  next_lem (suc fuel) n [] (b ∷ blocks) (es ∷ ess) d a f =
      let (at, more, room) = next_of_drop h.blocks n b blocks d in
      let load = next-load fuel n b es at room a.0 in
      let joined : ahead [] (es ∷ ess) ≡ ahead (from_start lo es) ess =
        from_start-append lo es (flatten ess) in
      elim (next_lem fuel (n + 1) (from_start lo es) blocks ess more a.1 (omega (arith, f))) [
        | inl (none_, stop) ↦ inl (
          ap (until_end hi) joined ∙ none_,
          ap (λ (s : Option (Result Entry) × SstCursor). s.0) load ∙ stop,
        )
        | inr (e, n', buf', ess', step, rest, inside, a') ↦
            inr (e, n', buf', ess', load ∙ step, joined ∙ rest, inside, a')
      ]

  drain-end :
      (fuel n : ℕ) (buf : List Entry)
      → (next crc32 lz4 (suc (length h.blocks)) (at_block n buf)).0 ≡ none
      → drain crc32 lz4 (suc fuel) (at_block n buf) ≡ []
  unfolding drain
  drain-end fuel n buf e = rw (e, drain) refl

  drain-yield :
      (fuel n n' : ℕ) (buf buf' : List Entry) (e : Entry)
      → next crc32 lz4 (suc (length h.blocks)) (at_block n buf) ≡ (some (ok e), at_block n' buf')
      → drain crc32 lz4 (suc fuel) (at_block n buf) ≡ ok e ∷ drain crc32 lz4 fuel (at_block n' buf')
  unfolding drain
  drain-yield fuel n n' buf buf' e step =
      let yields : (next crc32 lz4 (suc (length h.blocks)) (at_block n buf)).0 ≡ some (ok e) =
        ap (λ (s : Option (Result Entry) × SstCursor). s.0) step in
      rw (yields, drain)
        (ap (λ (s : Option (Result Entry) × SstCursor). ok e ∷ drain crc32 lz4 fuel s.1) step)

  until_end-cons :
      (e : Entry) (es : List Entry)
      → past_end e.0 hi ≡ false
      → until_end hi (e ∷ es) ≡ e ∷ until_end hi es
  unfolding until_end
  until_end-cons e es inside = rw inside refl

  -- The cursor yields what is before it up to the end of its range.
  pub drain-at_block :
      (fuel n : ℕ) (buf : List Entry) (ess : List (List Entry))
      → AllHold crc32 lz4 h (drop n h.blocks) ess
      → length (ahead buf ess) < fuel
      → drain crc32 lz4 fuel (at_block n buf) ≡ all_ok (until_end hi (ahead buf ess))
  drain-at_block zero n buf ess a f = absurd (omega (arith, f))
  drain-at_block (suc fuel) n buf ess a f =
      elim (next_lem (suc (length h.blocks)) n buf (drop n h.blocks) ess refl a
        (omega (arith, length-drop n h.blocks))) [
          | inl (none_, stop) ↦ drain-end fuel n buf stop ∙ ap all_ok (sym none_)
          | inr (e, n', buf', ess', step, rest, inside, a') ↦
              drain-yield fuel n n' buf buf' e step
              ∙ ap (◌∷◌ (ok e))
                  (drain-at_block fuel n' buf' ess' a' (omega (arith, f, ap length rest)))
              ∙ ap all_ok (sym (ap (until_end hi) rest ∙ until_end-cons e (ahead buf' ess') inside))
        ]
