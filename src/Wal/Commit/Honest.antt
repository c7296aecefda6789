-- ===== src/Wal/Commit/Honest.antt =====
-- Who may rely on the answer of a group commit of crates/proxygit-client/src/wal/mod.rs.
use proxygit.Prelude.{ℕ, ◌≤◌, ◌≡◌, refl, Bool, true, false, List, [], ◌∷◌, All, arith}
use proxygit.Wal.Commit.{
  Task, group_commit_worker, wal_flush_worker, Phase, idle, started, finished, Commits,
  append_entry, push_waiter, start, sync_data, nothing_dirty, drain_ok, Reachable, begin, next,
  IsHonest, Anytime, BeforeSync, Exclusive,
}

-- Tasks may take their steps in an order in which a waiter is told `Ok` and its entry is not
-- durable, even if only one task commits at a time and no fsync fails: it appends and registers
-- after the fsync of a commit and before the commit takes the list of waiters.
pub Reachable-not-IsHonest : ¬ ((s : Commits) → Reachable Anytime Exclusive ⊥ s → IsHonest s)
Reachable-not-IsHonest all =
    let durable =
      next (next (next begin append_entry) (start group_commit_worker refl (refl, refl)))
        (sync_data group_commit_worker refl) in
    let waits = next (next durable append_entry) (push_waiter {n = 2} (omega arith) tt) in
    let early = all _ (next waits (drain_ok group_commit_worker refl)) in
    absurd (omega (arith, early.0))

-- They may also do so if every waiter registers before the fsync and no fsync fails, but two tasks
-- commit at the same time: the second finds the flag taken by the first, and answers the waiters
-- before the first has synced.
pub Reachable-overlapping-not-IsHonest :
    ¬ ((s : Commits) → Reachable BeforeSync Anytime ⊥ s → IsHonest s)
Reachable-overlapping-not-IsHonest all =
    let waits = next (next begin append_entry) (push_waiter {n = 1} (omega arith) (tt, tt)) in
    let both =
      next (next waits (start group_commit_worker refl tt)) (start wal_flush_worker refl tt) in
    let early =
      all _
        (next (next both (nothing_dirty wal_flush_worker refl)) (drain_ok wal_flush_worker refl)) in
    absurd (omega (arith, early.0))

-- At most one task is in `group_commit`; `active` is its phase.
abbrev Lone : Phase → Phase → Type 0
Lone idle q = Unit
Lone (started b) q = q ≡ idle
Lone (finished b) q = q ≡ idle

abbrev active : Phase → Phase → Phase
active idle q = q
active (started b) q = started b
active (finished b) q = finished b

abbrev other : Task → Phase → Phase → Phase
other group_commit_worker p q = q
other wal_flush_worker p q = p

-- The flag is down and no fsync is due: all entries are durable.
abbrev Clean : Phase → Bool → ℕ → ℕ → Type 0
Clean (started true) needs synced appended = Unit
Clean idle needs synced appended = needs ≡ false → synced ≡ appended
Clean (started false) needs synced appended = needs ≡ false → synced ≡ appended
Clean (finished success) needs synced appended = needs ≡ false → synced ≡ appended

-- A commit that will tell its waiters `Ok` without a further fsync.
abbrev Ready : Phase → ℕ → List ℕ → Type 0
Ready idle synced waiting = Unit
Ready (started true) synced waiting = Unit
Ready (started false) synced waiting = All (λ n. n ≤ synced) waiting
Ready (finished success) synced waiting = All (λ n. n ≤ synced) waiting

record IsSound (s : Commits) : Type 0 where
  below : s.synced ≤ s.appended
  honest : IsHonest s
  known : All (λ n. n ≤ s.appended) s.waiting
  lone : Lone s.committer s.flusher
  clean : Clean (active s.committer s.flusher) s.needs_commit s.synced s.appended
  ready : Ready (active s.committer s.flusher) s.synced s.waiting

All-le : (a b : ℕ) (ns : List ℕ) → a ≤ b → All (λ n. n ≤ a) ns → All (λ n. n ≤ b) ns
All-le a b [] h all = tt
All-le a b (n ∷ ns) h (x, xs) = (omega arith, All-le a b ns h xs)

still-Ready : (phase : Phase) (a b : ℕ) (ns : List ℕ) → a ≤ b → Ready phase a ns → Ready phase b ns
still-Ready idle a b ns h r = tt
still-Ready (started true) a b ns h r = tt
still-Ready (started false) a b ns h r = All-le a b ns h r
still-Ready (finished success) a b ns h r = All-le a b ns h r
