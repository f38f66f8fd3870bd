-- ===== src/Jobs/Queue/Deps.antt =====
-- crates/br-runner-jobs/src/queue/deps.rs: which writes wait on the end of which others.
pub mod Blocking
use br_jobs_runner_kit.Prelude.{
  ℕ, ◌≡◌, refl, ◌↔◌, Bool, true, false, List, [], ◌∷◌, ◌++◌, Option, none, some, arith, KeyEq,
  nat_beq, nat_beq_iff, lookup,
}
use br_jobs_runner_kit.Jobs.Error.{Error}
use br_jobs_runner_kit.Jobs.Model.{Fact, CallMode, CreateChild, background, sync}
use br_jobs_runner_kit.Jobs.Queue.Write.{
  Write, Removal, WriteResult, ok, err, left_unsent, depends_on_removed,
}

pub data DepKey : Type 0 where
  started answer saved_state : DepKey
  registration upload create : ℕ → DepKey

abbrev pub dep_beq : DepKey → DepKey → Bool
dep_beq started started = true
dep_beq answer answer = true
dep_beq saved_state saved_state = true
dep_beq (registration a) (registration b) = nat_beq a b
dep_beq (upload a) (upload b) = nat_beq a b
dep_beq (create a) (create b) = nat_beq a b
dep_beq _ _ = false

pub dep_beq_iff : (a b : DepKey) → (dep_beq a b ≡ true) ↔ (a ≡ b)
dep_beq_iff a b = ground arith

instance abbrev pub dep_eq : KeyEq DepKey
dep_eq = record { equals = dep_beq; equals_iff = dep_beq_iff }

pub data Ended : Type 0 where
  delivered : Ended
  refused : Error → Ended
  failed depends unsent : Ended

-- `Ended::of`.
unfoldable pub of : WriteResult → Ended
of ok = Ended.delivered
of (err (Removal.refused e)) = Ended.refused e
of (err (Removal.failed e)) = Ended.failed
of (err depends_on_removed) = Ended.depends
of (err left_unsent) = Ended.unsent

abbrev mode_keys : CallMode → List DepKey
mode_keys (background caller_address) = DepKey.registration caller_address ∷ []
mode_keys sync = []

abbrev pub or_else : Option Removal → Option Removal → Option Removal
or_else (some r) rest = some r
or_else none rest = rest

module _ {ℓ} {V : Type ℓ} where
  unfoldable pub own_key : Write V → Option DepKey
  own_key (Write.started run_id start_id) = some DepKey.started
  own_key (Write.registration run_id agent) = some (DepKey.registration agent.agent_id)
  own_key (Write.upload job_id content) = some (DepKey.upload job_id)
  own_key (Write.create c) = some (DepKey.create c.job_id)
  own_key (Write.answer content) = some DepKey.answer
  own_key (Write.saved_state state) = some DepKey.saved_state
  own_key _ = none

  -- The first `if` of `depends_on`.
  abbrev start_keys : Write V → List DepKey
  start_keys (Write.started run_id start_id) = []
  start_keys _ = DepKey.started ∷ []

  -- The `match` of `depends_on`.
  abbrev kind_keys : Write V → List DepKey
  kind_keys (Write.mail m) = DepKey.registration m.from_address ∷ []
  kind_keys (Write.marker run_id item_id agent_id entry_id) = DepKey.registration agent_id ∷ []
  kind_keys (Write.create c) = DepKey.upload c.job_id ∷ mode_keys c.mode
  kind_keys (Write.finish run_id job_id command_id) = DepKey.create job_id ∷ []
  kind_keys (Write.cancel run_id job_id command_id) = DepKey.create job_id ∷ []
  kind_keys (Write.fact (Fact.completed run_id) id) = DepKey.answer ∷ DepKey.saved_state ∷ []
  kind_keys _ = []

  unfoldable pub depends_on : Write V → List DepKey
  depends_on w = start_keys w ++ kind_keys w

  -- The guard `matches!(write, Create) && matches!(key, Upload)`.
  abbrev pub upload_of_create : Write V → DepKey → Bool
  upload_of_create (Write.create c) (DepKey.upload job_id) = true
  upload_of_create _ _ = false

  -- One round of the loop in `blocked`: the removal that the end of the key causes.
  abbrev pub blocked_by : Write V → DepKey → Option Ended → Option Removal
  blocked_by w key none = none
  blocked_by w key (some delivered) = none
  blocked_by w key (some (refused e)) =
      some (elim (upload_of_create w key) [ true ↦ Removal.refused e | false ↦ depends_on_removed ])
  blocked_by w key (some _) = some depends_on_removed

  unfoldable pub blocked_keys : Write V → List DepKey → List (DepKey × Ended) → Option Removal
  blocked_keys w [] ended = none
  blocked_keys w (key ∷ rest) ended =
      or_else (blocked_by w key (lookup key ended)) (blocked_keys w rest ended)

  unfoldable pub blocked : Write V → List (DepKey × Ended) → Option Removal
  unfolding blocked_keys depends_on
  blocked w ended = blocked_keys w (depends_on w) ended
