-- ===== src/Jobs/EndWait.antt =====
-- crates/br-runner-jobs/src/endwait/store.rs, and the loop of endwait/mod.rs over it: the outcomes
-- of the children that a run waits for. A method is one step under the mutex; `changed` is the
-- number in the watch channel. An end of a child is of a type `E` of which nothing is known.
pub mod Decisions
use Prim.Native.String.{String}
use br_jobs_runner_kit.Prelude.{
  ℕ, ◌+◌, Bool, true, false, not, List, [], ◌∷◌, Option, none, some, nat_eq, nat_beq, lookup, put,
  is_some, if◌then◌else◌,
}
use br_jobs_runner_kit.Jobs.Error.{Error, infra_missing, book_dropped, unreadable}

pub data Outcome {ℓ} (E : Type ℓ) : Type ℓ where
  ok : E → Outcome E
  err : Error → Outcome E

pub record EndStore {ℓ} (E : Type ℓ) : Type ℓ where
  pub outcomes : List (ℕ × Outcome E)
  pub kept : Option Error
  pub last : Option Error
  pub generation : ℕ
  pub changed : ℕ

abbrev last_or : Option Error → Error
last_or (some error) = error
last_or none = infra_missing "the arrival feed ended"

module _ {ℓ} {E : Type ℓ} where
  unfoldable pub new : EndStore E
  new = record { outcomes = []; kept = none; last = none; generation = 0; changed = 0 }

  unfoldable pub signal : EndStore E → EndStore E
  signal s = record s { changed = s.changed + 1 }

  abbrev pub record_at : EndStore E → ℕ → Outcome E → Option (Outcome E) → EndStore E
  record_at s child_job_id outcome (some old) = s
  record_at s child_job_id outcome none =
      signal (record s { outcomes = put child_job_id outcome s.outcomes })

  -- `EndStore::record`.
  unfoldable pub record_end : EndStore E → ℕ → Outcome E → EndStore E
  unfolding signal
  record_end s child_job_id outcome =
      record_at s child_job_id outcome (lookup child_job_id s.outcomes)

  unfoldable pub feed_missing : EndStore E → Error → EndStore E
  unfolding signal
  feed_missing s error =
      signal (record s { generation = s.generation + 1; kept = some error; last = some error })

  -- `AgentBook::arrival_ended`, what it does to the ends: an `Unreadable` is ignored, and only an
  -- `InfraMissing` ends the waits.
  unfoldable pub arrival_ended : EndStore E → Error → EndStore E
  arrival_ended s (unreadable text) = s
  arrival_ended s (infra_missing text) = feed_missing s (infra_missing text)
  arrival_ended s error = s

  -- `AgentBook::arrival_open_again`.
  unfoldable pub reopened : EndStore E → EndStore E
  reopened s = record s { kept = none }

  abbrev decide_in : Option (Outcome E) → Option Error → Bool → Option Error → Option (Outcome E)
  decide_in (some outcome) kept same last = some outcome
  decide_in none (some error) same last = some (err error)
  decide_in none none true last = none
  decide_in none none false last = some (err (last_or last))

  unfoldable pub decide : EndStore E → ℕ → ℕ → Option (Outcome E)
  decide s child_job_id opened =
      decide_in (lookup child_job_id s.outcomes) s.kept (nat_beq s.generation opened) s.last

  -- One round of the loop in `watch_store`: the store is gone, or decides.
  unfoldable pub watch_round : Option (EndStore E) → ℕ → ℕ → Option (Outcome E)
  unfolding decide
  watch_round none child_job_id opened = some (err book_dropped)
  watch_round (some s) child_job_id opened = decide s child_job_id opened

-- What the arrival feed tells the store.
pub data Event {ℓ} (E : Type ℓ) : Type ℓ where
  ends : ℕ → Outcome E → Event E
  ends_feed : Error → Event E
  reopens : Event E

module _ {ℓ} {E : Type ℓ} where
  unfoldable pub step : EndStore E → Event E → EndStore E
  step s (ends child_job_id outcome) = record_end s child_job_id outcome
  step s (ends_feed error) = arrival_ended s error
  step s reopens = reopened s

  unfoldable pub run : EndStore E → List (Event E) → EndStore E
  run s [] = s
  run s (e ∷ es) = run (step s e) es
