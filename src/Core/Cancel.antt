-- ===== src/Core/Cancel.antt =====
-- crates/br-jobs-runner-core/src/cancel.rs: the cancel orders a runner knows. A run's id is a number.
pub mod Replay
use br_jobs_runner_kit.Prelude.{
  ℕ, Bool, List, [], contains, insert, remove, of_items, length, nat_beq, nat_eq,
}

pub record CancelSet : Type 0 where
  pub cancelled : List ℕ

unfoldable pub new : CancelSet
new = record { cancelled = [] }

unfoldable pub apply_put : CancelSet → ℕ → CancelSet
apply_put s run_id = record s { cancelled = insert run_id s.cancelled }

unfoldable pub apply_delete : CancelSet → ℕ → CancelSet
apply_delete s run_id = record s { cancelled = remove run_id s.cancelled }

unfoldable pub replace_with_replay : CancelSet → List ℕ → CancelSet
replace_with_replay s run_ids = record s { cancelled = of_items run_ids }

unfoldable pub is_cancelled : CancelSet → ℕ → Bool
is_cancelled s run_id = contains run_id s.cancelled

pub len : CancelSet → ℕ
len s = length s.cancelled

pub is_empty : CancelSet → Bool
is_empty s = nat_beq (length s.cancelled) 0
