-- ===== src/Kit/Facts.antt =====
-- crates/br-jobs-runner-kit/src/context.rs, facts.rs and runner.rs: what a run reports. The ids and
-- the times that the code asks of its platform are arguments; a JSON value is a `V`.
use Prim.Native.String.{String}
use text.Mathlib.Text.{◌==◌ as str_eq}
use br_jobs_runner_kit.Prelude.{
  ℕ, Bool, List, [], ◌∷◌, ◌++◌, Option, none, some, min, ◌/◌, if◌then◌else◌,
}

abbrev pub log_level_info : String
log_level_info = "INFO"

abbrev pub log_level_warning : String
log_level_warning = "WARNING"

abbrev pub log_level_error : String
log_level_error = "ERROR"

pub record FailureReport {ℓ} (V : Type ℓ) : Type ℓ where
  pub reason_code : String
  pub params : V
  pub diagnostic : V

pub data RunOutcome {ℓ} (V : Type ℓ) : Type ℓ where
  completed : RunOutcome V
  failed : FailureReport V → Option ℕ → RunOutcome V

-- Each fact holds its run's id first.
pub data RunFact {ℓ} (V : Type ℓ) : Type ℓ where
  plan_declared : ℕ → List String → ℕ → RunFact V
  step_started : ℕ → ℕ → String → ℕ → RunFact V
  log : ℕ → ℕ → Option ℕ → String → String → ℕ → RunFact V
  completed : ℕ → RunFact V
  failed : ℕ → FailureReport V → Option ℕ → RunFact V

pub record RunContext : Type 0 where
  pub run_id : ℕ
  pub job_id : ℕ
  pub attempt : ℕ

-- The `match` of `canonical_log_level`, on the level that was trimmed and put in upper case.
unfoldable pub canonical_word : String → Option String
canonical_word word =
    if str_eq word log_level_info
    then some log_level_info
    else if str_eq word "WARN"
    then some log_level_warning
    else if str_eq word log_level_warning
    then some log_level_warning
    else if str_eq word log_level_error
    then some log_level_error
    else none

-- `normal` is the standard library's `trim` and `to_ascii_uppercase` of a text.
unfoldable pub canonical_log_level : (String → String) → String → Option String
unfolding canonical_word
canonical_log_level normal level = canonical_word (normal level)

-- `i64::MAX`.
abbrev pub i64_max : ℕ
i64_max = 9_223_372_036_854_775_807

-- `i64::try_from(d.as_secs()).unwrap_or(i64::MAX)`.
unfoldable pub retry_after_seconds : Option ℕ → Option ℕ
retry_after_seconds none = none
retry_after_seconds (some nanos) = some (min (nanos / 1_000_000_000) i64_max)

module _ {ℓ} {V : Type ℓ} where
  -- `RunOutcome::failed`, where `null` is `Value::Null`.
  unfoldable pub failed_outcome : V → String → RunOutcome V
  failed_outcome null reason_code =
      RunOutcome.failed (record { reason_code = reason_code; params = null; diagnostic = null })
        none

  abbrev with_retry : RunOutcome V → Option ℕ → RunOutcome V
  with_retry completed retry_after = completed
  with_retry (failed report _) retry_after = RunOutcome.failed report retry_after

  unfoldable pub failed_retry_after : V → String → ℕ → RunOutcome V
  unfolding failed_outcome
  failed_retry_after null reason_code retry_after =
      with_retry (failed_outcome null reason_code) (some retry_after)

  -- `emit` on the unbounded channel: nothing is sent once its receiver is gone.
  unfoldable pub emit : Bool → List (RunFact V) → RunFact V → List (RunFact V)
  emit live sent fact = if live then sent ++ fact ∷ [] else sent

  unfoldable pub declare_plan :
      RunContext → Bool → List (RunFact V) → List String → ℕ → List (RunFact V)
  unfolding emit
  declare_plan ctx live sent steps declaration_id =
      emit live sent (plan_declared ctx.run_id steps declaration_id)

  unfoldable pub start_step :
      RunContext → Bool → List (RunFact V) → ℕ → String → ℕ → List (RunFact V)
  unfolding emit
  start_step ctx live sent index label started_at =
      emit live sent (step_started ctx.run_id index label started_at)

  abbrev log_at :
      Option String
      → RunContext
      → Bool
      → List (RunFact V)
      → Option ℕ
      → String
      → ℕ
      → ℕ
      → List (RunFact V)
  log_at none ctx live sent step_index message id logged_at = sent
  log_at (some level) ctx live sent step_index message id logged_at =
      emit live sent (log ctx.run_id id step_index level message logged_at)

  unfoldable pub log_with :
      (String → String)
      → RunContext
      → Bool
      → List (RunFact V)
      → String
      → Option ℕ
      → String
      → ℕ
      → ℕ
      → List (RunFact V)
  unfolding emit canonical_log_level
  log_with normal ctx live sent level step_index message id logged_at =
      log_at (canonical_log_level normal level) ctx live sent step_index message id logged_at
