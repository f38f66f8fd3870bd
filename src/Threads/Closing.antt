-- ===== src/Threads/Closing.antt =====
-- crates/br-runner-threads/src/closing.rs: the kinds of closings.
use Prim.Native.String.{String}
use br_jobs_runner_kit.Prelude.{ℕ, Bool, true, false, Option}

pub data ClosureKind : Type 0 where
  completed cancelled interrupted budget_exhausted failed : ClosureKind

abbrev pub is_completed : ClosureKind → Bool
is_completed completed = true
is_completed _ = false

-- The request to close a message. The wait is left out.
pub record Closing : Type 0 where
  pub command_id : ℕ
  pub thread_id : ℕ
  pub message_id : ℕ
  pub kind : ClosureKind
  pub detail : Option String
  pub acting_user_id : Option ℕ
