-- ===== src/Jobs/Model.antt =====
-- The parts of crates/br-runner-jobs/src/model/mod.rs, model/outgoing.rs and backend.rs that a
-- write carries. A UUID is a number; a JSON value, which the code only passes on, is of a type `V`
-- of which nothing is known.
use Prim.Native.String.{String}
use br_jobs_runner_kit.Prelude.{ℕ, Bool, List, Option, ℤ}

pub record ContentAttachment : Type 0 where
  pub name : String
  pub content_type : String
  pub content : String

pub record Content : Type 0 where
  pub message : String
  pub attachments : List ContentAttachment

pub data PayloadForm : Type 0 where
  inline : Content → PayloadForm
  kept : PayloadForm
  reference : String → String → PayloadForm

pub data CallMode : Type 0 where
  sync : CallMode
  background : ℕ → CallMode

pub data FailureKind : Type 0 where
  transient permanent : FailureKind

pub record Failed {ℓ} (V : Type ℓ) : Type ℓ where
  pub kind : FailureKind
  pub reason_code : String
  pub params : V
  pub diagnostic : V
  pub retry_after_seconds : Option ℤ

pub record AgentDeclaration : Type 0 where
  pub agent_id : ℕ
  pub has_inbox : Bool
  pub can_restart : Bool

pub record NewMailAttachment : Type 0 where
  pub attachment_id : ℕ
  pub name : String
  pub content_type : String
  pub content : String

pub record NewMailInput : Type 0 where
  pub mail_id : ℕ
  pub from_address : ℕ
  pub author : String
  pub source_conversation : ℕ
  pub subject : String
  pub body : String
  pub to : List ℕ
  pub cc : List ℕ
  pub attachments : List NewMailAttachment

-- A point of the calendar time is a number.
pub data Fact {ℓ} (V : Type ℓ) : Type ℓ where
  plan : ℕ → List String → Option ℕ → Fact V
  step : ℕ → ℕ → String → ℕ → Fact V
  completed : ℕ → Fact V
  failed : ℕ → Failed V → Fact V

pub record CreateChild {ℓ} (V : Type ℓ) : Type ℓ where
  pub command_id : ℕ
  pub job_id : ℕ
  pub runner_type : String
  pub mode : CallMode
  pub config : Option V
  pub payload : PayloadForm
  pub passport : V
  pub parent_job_id : ℕ
  pub initial_job_id : ℕ
  pub run_id : ℕ
  pub max_attempts : Option ℤ
