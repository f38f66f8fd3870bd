-- ===== src/Jobs/Error.antt =====
-- crates/br-runner-jobs/src/error.rs: the errors of a call to jobs.
use Prim.Native.String.{String}
use br_jobs_runner_kit.Prelude.{ℕ, Bool, true, false, Option}
use br_jobs_runner_kit.Jobs.Reason.{RefusalReason}

pub data Cause : Type 0 where
  wait_fired transport no_listener : Cause

pub record Failure : Type 0 where
  pub cause : Cause
  pub text : String

pub data CredentialKind : Type 0 where
  no_usable fetch_failed : CredentialKind

pub record CredentialFailure : Type 0 where
  pub kind : CredentialKind
  pub text : String

pub data Operation : Type 0 where
  claim started_fact create finish cancel mail registration read_marker : Operation
  agent_list upload payload result saved_state attachment read size : Operation

pub record Refusal : Type 0 where
  pub operation : Operation
  pub reason : RefusalReason
  pub message : String
  pub retry_after_ms : Option ℕ

pub data Error : Type 0 where
  invalid_input : String → Error
  credential : CredentialFailure → Error
  unauthenticated : Error
  unavailable lost : Failure → Error
  refused : Refusal → Error
  infra_missing unreadable : String → Error
  book_dropped : Error

-- `Error::wait_fired`.
unfoldable pub wait_error : String → Error
wait_error text = lost (record { cause = wait_fired; text = text })

unfoldable pub is_refusal : Error → Bool
is_refusal (refused r) = true
is_refusal _ = false
