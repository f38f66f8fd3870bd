-- ===== src/Kit/Publish.antt =====
-- crates/br-jobs-runner-kit/src/transport/publish.rs: how the facts of the runs are published. The
-- broker's answers are a function of the attempt's number: `true` where `publish_acked` succeeds.
pub mod Attempts
use br_jobs_runner_kit.Prelude.{
  ℕ, zero, suc, ◌+◌, ◌≤◌, ◌≡◌, refl, ap, Bool, true, false, not, ◌&&◌, ◌||◌, List, [], ◌∷◌, map,
  Option, none, some, arith, leb, length, All, if◌then◌else◌,
}
use br_jobs_runner_kit.Core.Backoff.{Backoff, NewResult, ok, err, next_delay, delays}
use br_jobs_runner_kit.Core.Backoff
use br_jobs_runner_kit.Kit.Facts.{RunFact, plan_declared, step_started, log, completed, failed}

abbrev pub status_publish_attempts : ℕ
status_publish_attempts = 8

pub data Subject : Type 0 where
  log_line plan step completion failure : Subject

-- What the publication of one fact took: the attempts, the sleeps between and behind them, and
-- whether the broker has it.
pub record Report : Type 0 where
  pub subject : Subject
  pub tries : ℕ
  pub slept : List ℕ
  pub delivered : Bool

module _ (subject : Subject) (accepts : ℕ → Bool) where
  abbrev delivered_at_once : Report
  delivered_at_once = record { subject = subject; tries = 1; slept = []; delivered = true }

  -- The `for` loop with this many attempts left, `attempt` being the number of the next.
  unfoldable pub attempt_status : ℕ → ℕ → Backoff → Report
  unfolding next_delay
  attempt_status zero attempt b = record {
    subject = subject;
    tries = 0;
    slept = [];
    delivered = false;
  }
  attempt_status (suc left) attempt b =
      let (c, delay) = next_delay b in
      let rest = attempt_status left (suc attempt) c in
      if accepts attempt
      then delivered_at_once
      else record rest { tries = suc rest.tries; slept = delay ∷ rest.slept }

  abbrev with_backoff : NewResult → Option Report
  with_backoff (ok b) = some (attempt_status status_publish_attempts 1 b)
  with_backoff (err e) = none

  -- `none` is the panic of `expect`.
  unfoldable pub publish_status : Option Report
  unfolding attempt_status Backoff.new
  publish_status = with_backoff (Backoff.new 500_000_000 15_000_000_000)

  -- A log line is published once, without waiting for the broker; `accepts 0` is whether it is
  -- serialized and handed over.
  unfoldable pub publish_log : Report
  publish_log = record { subject = subject; tries = 1; slept = []; delivered = accepts 0 }

abbrev pub publish_as : Subject → (ℕ → Bool) → Option Report
publish_as log_line accepts = some (publish_log log_line accepts)
publish_as subject accepts = publish_status subject accepts

abbrev pub and_then : Option Report → Option (List Report) → Option (List Report)
and_then (some r) (some rs) = some (r ∷ rs)
and_then _ _ = none

module _ {ℓ} {V : Type ℓ} where
  abbrev pub subject_of : RunFact V → Subject
  subject_of (log run_id id step_index level message logged_at) = log_line
  subject_of (plan_declared run_id steps declaration_id) = plan
  subject_of (step_started run_id index label started_at) = step
  subject_of (completed run_id) = completion
  subject_of (failed run_id report retry_after) = failure

  -- The facts in the order in which the channel holds them, each with the broker's answers to it.
  unfoldable pub publish_facts : List (RunFact V × (ℕ → Bool)) → Option (List Report)
  unfolding publish_status publish_log
  publish_facts [] = some []
  publish_facts ((fact, accepts) ∷ rest) =
      and_then (publish_as (subject_of fact) accepts) (publish_facts rest)
