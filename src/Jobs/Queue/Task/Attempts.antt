-- ===== src/Jobs/Queue/Task/Attempts.antt =====
-- How long the loop of `attempts` goes on.
use br_jobs_runner_kit.Prelude.{
  ◌+◌, ◌≡◌, refl, Bool, true, false, List, [], ◌∷◌, arith, is_none, length, if◌then◌else◌,
}
use br_jobs_runner_kit.Jobs.Error.{wait_error}
use br_jobs_runner_kit.Jobs.Queue.Write.{Write, name}
use br_jobs_runner_kit.Jobs.Queue.Shared.{Shared, Entry, record_failure, report}
use br_jobs_runner_kit.Jobs.Queue.Task.{
  Sent, sent, failed, timed_out, resendable, attempt_once, attempts,
}

module _ {ℓ} {V : Type ℓ} where
  -- Whether every send of a list fails in a way that is tried again.
  unfoldable pub all_resent : Write V → List Sent → Bool
  all_resent w [] = true
  all_resent w (sent ∷ os) = false
  all_resent w (failed e ∷ os) = if resendable w e then all_resent w os else false
  all_resent w (timed_out ∷ os) = all_resent w os

  -- A write is never given up while its sends time out or fail in a way that is tried again, and is
  -- reported as retried once for each of these: the loop has no result exactly as long as each send
  -- so far was such, and each send up to the last of them has left one report.
  pub attempts-persist :
      (s : Shared V) (e : Entry V) (os : List Sent)
      → (is_none (attempts s e os).1 ≡ all_resent e.write os)
        × ((if all_resent e.write os
              then length (attempts s e os).0.reports
              else length s.reports + length os)
            ≡ length s.reports + length os)
  unfolding attempts all_resent attempt_once resendable wait_error record_failure report
  attempts-persist s e [] = (refl, omega arith)
  attempts-persist s e (sent ∷ os) = (refl, refl)
  attempts-persist s e (failed f ∷ os) =
      ground (arith, attempts-persist (record_failure s e.seq (name e.write) f) e os)
  attempts-persist s e (timed_out ∷ os) = ground (
    arith,
    attempts-persist
        (record_failure s e.seq (name e.write) (wait_error "no outcome within the outcome wait")) e
        os,
  )
