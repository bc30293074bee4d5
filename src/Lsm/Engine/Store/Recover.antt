-- ===== src/Lsm/Engine/Store/Recover.antt =====
-- crates/bkndb-storage-lsm/src/engine: the log of an engine holds its active memtable.
use mathlib.Core.Path.{subst}
use bkndb.Prelude.{ℕ, ◌<◌, ◌^◌, ◌≡◌, refl, sym, ap, ◌∙◌, List, [], ◌∷◌, false, length, leb}
use bkndb.Error.{ok}
use bkndb.Lsm.Codec.{Bincode}
use bkndb.Lsm.Memtable.{memtable_byte_size}
use bkndb.Lsm.Manifest.{Manifest}
use bkndb.Lsm.Wal.{WalRecord, append, replay_from}
use bkndb.Lsm.Wal.Recovery.{append_all, replay-append_all}
use bkndb.Lsm.Sstable.Write.{Crates}
use bkndb.Lsm.Engine.Faults.{Io, Attempt, made, broken, attempt-made}
use bkndb.Lsm.Engine.{LsmStorageBackend, Pending}
use bkndb.Lsm.Engine.Store.{
  log_of, done, apply_writes, recover, with_writes, finish_commit, commit_pending,
}

-- A commit without a write logs nothing.
abbrev records_of : List Pending → List WalRecord
records_of [] = []
records_of ([] ∷ ps) = records_of ps
records_of ((w ∷ p) ∷ ps) = record { entries = w ∷ p } ∷ records_of ps

module _ (c : Crates) (manifest_code : Bincode Manifest) (wal_code : Bincode WalRecord) (fuel : ℕ)
    (io : Io) where
  -- The memtable with the writes stays below the size at which it is flushed.
  abbrev pub IsSmall : LsmStorageBackend → Pending → Type 0
  IsSmall b p =
      leb b.options.memtable_flush_bytes
        (memtable_byte_size (apply_writes p b.state.active_memtable))
      ≡ false

  -- Commits one after the other that succeed, and none of which makes the memtable large.
  abbrev pub Logged : LsmStorageBackend → List Pending → LsmStorageBackend → Type 0
  Logged b [] b' = b ≡ b'
  Logged b (p ∷ ps) b' =
      (b1 : LsmStorageBackend) × (commit_pending c manifest_code wal_code fuel io b p ≡ done b1)
      × IsSmall b p
      × Logged b1 ps b'

  -- What one commit does to the file and to the memtable.
  abbrev Logs : LsmStorageBackend → Pending → LsmStorageBackend → Type 0
  Logs b p b1 =
      (append wal_code c.crc32 b.container.file (record { entries = p }) ≡ ok b1.container.file)
      × (apply_writes p b.state.active_memtable ≡ b1.state.active_memtable)
      × (b.state.wal_region_start ≡ b1.state.wal_region_start)

  finish_commit-Logs :
      (b b1 : LsmStorageBackend) (p : Pending) (r : Attempt (List ℕ))
      → log_of c manifest_code wal_code fuel io b p ≡ r
      → finish_commit c manifest_code wal_code fuel io b p r ≡ done b1
      → IsSmall b p
      → Logs b p b1
  finish_commit-Logs b b1 p (broken e file) a h small = absurd (cc)
  finish_commit-Logs b b1 p (made file) a h small =
      let same : with_writes c manifest_code wal_code fuel io b p file ≡ b1 = cc (rw small at h) in
      subst (Logs b p) same (attempt-made io.log _ _ file a, refl, refl)

  logged_lem :
      (b b' : LsmStorageBackend) (ps : List Pending)
      → Logged b ps b'
      → (append_all wal_code c.crc32 b.container.file (records_of ps) ≡ ok b'.container.file)
        × (recover (records_of ps) b.state.active_memtable ≡ b'.state.active_memtable)
        × (b.state.wal_region_start ≡ b'.state.wal_region_start)
  unfolding recover commit_pending
  logged_lem b b' [] same = (
    ap (λ (n : LsmStorageBackend). ok n.container.file) same,
    ap (λ (n : LsmStorageBackend). n.state.active_memtable) same,
    ap (λ (n : LsmStorageBackend). n.state.wal_region_start) same,
  )
  logged_lem b b' ([] ∷ ps) (b1, h, small, rest) =
      let same : b ≡ b1 = cc in logged_lem b b' ps (subst (λ n. Logged n ps b') (sym same) rest)
  logged_lem b b' ((w ∷ p) ∷ ps) (b1, h, small, rest) =
      let (logged, table, start) = finish_commit-Logs b b1 (w ∷ p) _ refl h small in
      let (later, tables, starts) = logged_lem b1 b' ps rest in
      (rw logged later, ap (recover (records_of ps)) table ∙ tables, start ∙ starts)

  -- What is committed and not yet flushed survives a reopen: from an engine with an empty memtable,
  -- whose log begins at the end of its file, commits that succeed and stay below the size of a flush
  -- leave a file of which a replay reaches the end, and the records that it finds build the active
  -- memtable again, if the file is shorter than 2^64 bytes.
  pub recover_lem :
      (b b' : LsmStorageBackend) (ps : List Pending)
      → b.state.active_memtable ≡ []
      → b.state.wal_region_start ≡ length b.container.file
      → Logged b ps b'
      → length b'.container.file < 2 ^ 64
      → let replayed = replay_from wal_code c.crc32 b'.container.file b'.state.wal_region_start in
        (recover replayed.0 [] ≡ b'.state.active_memtable) × (replayed.1 ≡ length b'.container.file)
  recover_lem b b' ps empty start logged small =
      let (appended, tables, starts) = logged_lem b b' ps logged in
      let replayed : replay_from wal_code c.crc32 b'.container.file b'.state.wal_region_start
          ≡ (records_of ps, length b'.container.file) =
        ap (replay_from wal_code c.crc32 b'.container.file) (sym starts ∙ start)
        ∙ replay-append_all wal_code c.crc32 b.container.file (records_of ps) b'.container.file
            appended small in
      (
        ap (λ (r : List WalRecord × ℕ). recover r.0 []) replayed
            ∙ ap (recover (records_of ps)) (sym empty)
            ∙ tables,
        ap (λ (r : List WalRecord × ℕ). r.1) replayed,
      )
