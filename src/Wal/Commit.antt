-- ===== src/Wal/Commit.antt =====
-- Group commits of the write-ahead log, `append_entry`, `wait_group_commit`, `group_commit` and
-- `rotate_for_flush` of crates/proxygit-client/src/wal/mod.rs, as steps that tasks take in any
-- order. Two tasks run `group_commit`, the worker of group commits and the worker of flushes, and
-- they may do so at the same time. A step is what one task does under one lock, or one atomic
-- operation; the count of dirty bytes is part of the flag `needs_commit`, and a rotation that
-- succeeds is one step, as it holds the lock of the journal throughout. The name of a new journal
-- file, which the code does not sync, is taken to be durable.
pub mod Honest
use proxygit.Prelude.{ℕ, suc, ◌≤◌, ◌≡◌, refl, Bool, true, false, List, [], ◌∷◌, ◌++◌, All, arith}

-- `start_group_commit_worker` and `start_wal_flush_worker`.
pub data Task : Type 0 where
  group_commit_worker wal_flush_worker : Task

-- Where a task stands in `group_commit`: outside it, after it took the flag `needs_commit` (with
-- its value), or behind the fsync with its success.
pub data Phase : Type 0 where
  idle : Phase
  started finished : Bool → Phase

-- `appended` entries are in the journal and the first `synced` of them are durable. A waiter is
-- the number of entries that it wants durable; `told` are the waiters that were sent an `Ok`.
pub record Commits : Type 0 where
  pub appended : ℕ
  pub synced : ℕ
  pub needs_commit : Bool
  pub committer : Phase
  pub flusher : Phase
  pub waiting : List ℕ
  pub told : List ℕ

abbrev pub no_commits : Commits
no_commits = record {
  appended = 0;
  synced = 0;
  needs_commit = false;
  committer = idle;
  flusher = idle;
  waiting = [];
  told = [];
}

abbrev pub phase_of : Task → Commits → Phase
phase_of group_commit_worker s = s.committer
phase_of wal_flush_worker s = s.flusher

-- The phases of the two tasks when one of them moves.
abbrev pub committer_after : Task → Phase → Phase → Phase
committer_after group_commit_worker p q = p
committer_after wal_flush_worker p q = q

abbrev pub flusher_after : Task → Phase → Phase → Phase
flusher_after group_commit_worker p q = q
flusher_after wal_flush_worker p q = p

abbrev pub moved : Task → Phase → Commits → Commits
moved t p s = record s {
  committer = committer_after t p s.committer;
  flusher = flusher_after t p s.flusher;
}

-- The steps, where `MayWait` and `MayStart` are the phases of the two tasks in which a waiter may
-- register and a commit may begin, and `MayFail` is empty if no fsync fails.
module _ (MayWait MayStart : Phase → Phase → Type 0) (MayFail : Type 0) where
  pub data Step : Commits → Commits → Type 0 where
    append_entry :
        {s : Commits} → Step s (record s { appended = suc s.appended; needs_commit = true })
    push_waiter :
        {s : Commits} {n : ℕ}
        → n ≤ s.appended
        → MayWait s.committer s.flusher
        → Step s (record s { waiting = n ∷ s.waiting })
    request_commit : {s : Commits} → Step s (record s { needs_commit = true })
    start :
        {s : Commits} (t : Task)
        → phase_of t s ≡ idle
        → MayStart s.committer s.flusher
        → Step s (moved t (started s.needs_commit) (record s { needs_commit = false }))
    sync_data :
        {s : Commits} (t : Task)
        → phase_of t s ≡ started true
        → Step s (moved t (finished true) (record s { synced = s.appended }))
    sync_failed :
        {s : Commits} (t : Task)
        → MayFail
        → phase_of t s ≡ started true
        → Step s (moved t (finished false) s)
    nothing_dirty :
        {s : Commits} (t : Task) → phase_of t s ≡ started false → Step s (moved t (finished true) s)
    drain_ok :
        {s : Commits} (t : Task)
        → phase_of t s ≡ finished true
        → Step s (moved t idle (record s { waiting = []; told = s.waiting ++ s.told }))
    drain_err :
        {s : Commits} (t : Task)
        → phase_of t s ≡ finished false
        → Step s (moved t idle (record s { waiting = [] }))
    rotate :
        {s : Commits}
        → s.flusher ≡ idle
        → Step s (record s {
          synced = s.appended;
          needs_commit = false;
          waiting = [];
          told = s.waiting ++ s.told;
        })

  -- The states that the log may come to.
  pub data Reachable : Commits → Type 0 where
    begin : Reachable no_commits
    next : {s s' : Commits} → Reachable s → Step s s' → Reachable s'

-- Every waiter that was told `Ok` has its entries on the disk.
abbrev pub IsHonest : Commits → Type 0
IsHonest s = All (λ n. n ≤ s.synced) s.told

-- Whatever the tasks are doing.
abbrev pub Anytime : Phase → Phase → Type 0
Anytime committer flusher = Unit

abbrev pub IsBeforeSync : Phase → Type 0
IsBeforeSync idle = Unit
IsBeforeSync (started dirty) = dirty ≡ true
IsBeforeSync (finished success) = ⊥

-- No task has its fsync, or its finding that there is nothing to sync, behind it.
abbrev pub BeforeSync : Phase → Phase → Type 0
BeforeSync committer flusher = IsBeforeSync committer × IsBeforeSync flusher

-- No task is in `group_commit`.
abbrev pub Exclusive : Phase → Phase → Type 0
Exclusive committer flusher = (committer ≡ idle) × (flusher ≡ idle)
