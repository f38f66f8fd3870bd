-- ===== src/Jobs/Queue/Write.antt =====
-- crates/br-runner-jobs/src/queue/write.rs and queue/report.rs: a write, its name, and its end.
use br_jobs_runner_kit.Prelude.{ℕ, List, [], ◌∷◌, Option, none, some}
use br_jobs_runner_kit.Jobs.Error.{Error}
use br_jobs_runner_kit.Jobs.Model.{AgentDeclaration, Content, NewMailInput, Fact, CreateChild}

pub data WriteKind : Type 0 where
  started registration mail read_marker upload create finish cancel : WriteKind
  answer saved_state plan_declared step_started completed failed : WriteKind

pub record WriteName : Type 0 where
  pub kind : WriteKind
  pub ids : List ℕ

-- The fields of each case in the order of the source: `marker` has run, item, agent and entry,
-- `finish` and `cancel` have run, job and command.
pub data Write {ℓ} (V : Type ℓ) : Type ℓ where
  started : ℕ → ℕ → Write V
  registration : ℕ → AgentDeclaration → Write V
  mail : NewMailInput → Write V
  marker : ℕ → ℕ → ℕ → ℕ → Write V
  upload : ℕ → Content → Write V
  create : CreateChild V → Write V
  finish cancel : ℕ → ℕ → ℕ → Write V
  answer : Content → Write V
  saved_state : V → Write V
  fact : Fact V → ℕ → Write V

abbrev named : WriteKind → List ℕ → WriteName
named kind ids = record { kind = kind; ids = ids }

module _ {ℓ} {V : Type ℓ} where
  fact_name : Fact V → WriteName
  fact_name (Fact.plan run_id steps declaration) = named WriteKind.plan_declared (run_id ∷ [])
  fact_name (Fact.step run_id index label at) = named WriteKind.step_started (run_id ∷ [])
  fact_name (Fact.completed run_id) = named WriteKind.completed (run_id ∷ [])
  fact_name (Fact.failed run_id failure) = named WriteKind.failed (run_id ∷ [])

  pub name : Write V → WriteName
  unfolding fact_name
  name (Write.started run_id start_id) = named WriteKind.started (run_id ∷ start_id ∷ [])
  name (Write.registration run_id agent) = named WriteKind.registration (agent.agent_id ∷ [])
  name (Write.mail m) = named WriteKind.mail (m.mail_id ∷ m.from_address ∷ [])
  name (Write.marker run_id item_id agent_id entry_id) =
      named WriteKind.read_marker (item_id ∷ agent_id ∷ [])
  name (Write.upload job_id content) = named WriteKind.upload (job_id ∷ [])
  name (Write.create c) = named WriteKind.create (c.job_id ∷ c.command_id ∷ [])
  name (Write.finish run_id job_id command_id) = named WriteKind.finish (job_id ∷ command_id ∷ [])
  name (Write.cancel run_id job_id command_id) = named WriteKind.cancel (job_id ∷ command_id ∷ [])
  name (Write.answer content) = named WriteKind.answer []
  name (Write.saved_state state) = named WriteKind.saved_state []
  name (Write.fact f id) = fact_name f

pub data Removal : Type 0 where
  refused failed : Error → Removal
  depends_on_removed left_unsent : Removal

pub into_error : Removal → Option Error
into_error (Removal.refused e) = some e
into_error (Removal.failed e) = some e
into_error _ = none

pub data WriteResult : Type 0 where
  ok : WriteResult
  err : Removal → WriteResult

-- What a caller holds: a write that is queued under a number, whose end is still to come, or one
-- that has ended at once.
pub data WriteEnd : Type 0 where
  queued : ℕ → WriteEnd
  ended : WriteResult → WriteEnd

pub data QueueReport : Type 0 where
  retrying : WriteName → Error → QueueReport
  removed : WriteName → Removal → QueueReport
  delivered : WriteName → QueueReport
