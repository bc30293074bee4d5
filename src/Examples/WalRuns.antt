-- ===== src/Examples/WalRuns.antt =====
-- crates/bkndb-storage-lsm/src/wal.rs at two commits and a crash.
use bkndb.Prelude.{ℕ, ◌+◌, ◌≡◌, refl, arith, List, [], ◌∷◌, ◌++◌, none, some, length, take}
use bkndb.Prelude.BigEndian.{to_be}
use bkndb.Error.{ok}
use bkndb.Lsm.Wal.{WalRecord, append, replay_from}
use bkndb.Lsm.Wal.Recovery.{append_all, replay-append_all, replay_torn}
use bkndb.Examples.Fixtures.{plain, sum32}

abbrev first : WalRecord
first = record { entries = (b'a' ∷ [], some (b'1' ∷ [])) ∷ [] }

abbrev second : WalRecord
second = record { entries = (b'a' ∷ [], none) ∷ [] }

abbrev header : List ℕ
header = 9 ∷ 9 ∷ 9 ∷ []

abbrev one_commit : List ℕ
one_commit = header ++ (0 ∷ 0 ∷ 0 ∷ 6 ∷ 0 ∷ 0 ∷ 0 ∷ 150 ∷ 1 ∷ 1 ∷ b'a' ∷ 1 ∷ 1 ∷ b'1' ∷ [])

abbrev two_commits : List ℕ
two_commits = one_commit ++ (0 ∷ 0 ∷ 0 ∷ 4 ∷ 0 ∷ 0 ∷ 0 ∷ 99 ∷ 1 ∷ 1 ∷ b'a' ∷ 0 ∷ [])

commit_one : append_all plain sum32 header (first ∷ []) ≡ ok one_commit
unfolding append to_be
commit_one = refl

commit_two : append plain sum32 one_commit second ≡ ok two_commits
unfolding append to_be
commit_two = refl

replay-append_all_example :
    replay_from plain sum32 one_commit (length header) ≡ (first ∷ [], length one_commit)
replay-append_all_example =
    replay-append_all plain sum32 header (first ∷ []) one_commit commit_one (omega arith)

replay_torn_example :
    (replay_from plain sum32 (take (length one_commit + 9) two_commits) (length header)
      ≡ (first ∷ [], length one_commit))
    × (take (length one_commit) (take (length one_commit + 9) two_commits) ≡ one_commit)
replay_torn_example =
    replay_torn plain sum32 header (first ∷ []) one_commit second two_commits 9 commit_one
      commit_two (omega arith) (omega arith)
