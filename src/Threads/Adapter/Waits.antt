-- ===== src/Threads/Adapter/Waits.antt =====
-- crates/br-runner-threads/src/adapter/ops/waits.rs: the tests that end the waits on a
-- queue.
pub mod Numbers
pub mod Drained
pub mod Entries
use br_jobs_runner_kit.Prelude.{
  ℕ, Bool, true, false, List, [], ◌∷◌, Option, none, some, ltb, nat_eq, contains, any,
  if◌then◌else◌,
}
use br_jobs_runner_kit.Threads.Queue.{Queued, QueueInner}

-- The test in `wait_past` on what stands in the queue.
unfoldable pub is_past : List Queued → ℕ → Bool
is_past [] target = true
is_past (head ∷ items) target = ltb target head.no

unfoldable pub wait_past : QueueInner → ℕ → Bool
unfolding is_past
wait_past queue target = is_past queue.items target

pub data EntryOutcome : Type 0 where
  stored dropped : EntryOutcome

-- A round of `entry_stored`: the outcome, or `none` where it waits for a change of the queue.
unfoldable pub entry_stored : QueueInner → ℕ → Option EntryOutcome
entry_stored queue entry =
    if contains entry queue.dropped
    then some dropped
    else if any (λ q. contains entry q.item.entries) queue.items
    then none
    else some stored
