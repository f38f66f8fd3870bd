-- ===== src/Jobs/Queue/Handle.antt =====
-- crates/br-runner-jobs/src/queue/mod.rs: the handle of a run's delivery queue. The methods of
-- QueueWriter are those of the shared state. The async runtime is an argument: whether there is one.
-- `id` is the new id of a fact, `now` the time.
use Prim.Native.String.{String}
use br_jobs_runner_kit.Prelude.{
  inr, inl, ◌⊎◌, ℕ, Bool, List, [], ◌∷◌, Option, none, some, nat_beq, if◌then◌else◌,
}
use br_jobs_runner_kit.Jobs.Error.{Error, invalid_input}
use br_jobs_runner_kit.Jobs.Model.{Content, Failed, Fact}
use br_jobs_runner_kit.Jobs.Queue.Write.{Write, WriteEnd}
use br_jobs_runner_kit.Jobs.Queue.Shared.{Shared, QueueState, hand_over, snapshot, stop_now}
use br_jobs_runner_kit.Jobs.Queue.Shared
use br_jobs_runner_kit.Jobs.Queue.Task.{Task}
use br_jobs_runner_kit.Jobs.Queue.Task

pub record QueueSettings : Type 0 where
  pub start_id : ℕ
  pub outcome_wait : ℕ
  pub retry_wait : ℕ

pub record DeliveryQueue {ℓ} (V : Type ℓ) : Type ℓ where
  pub shared : Shared V
  pub run_id : ℕ

pub data StartResult {ℓ} (V : Type ℓ) : Type ℓ where
  ok : DeliveryQueue V → Task V → WriteEnd → StartResult V
  err : Error → StartResult V

-- `none` where `check` returns the runtime.
unfoldable pub check : QueueSettings → Bool → Option Error
check settings runtime =
    if nat_beq settings.outcome_wait 0
    then some (invalid_input "the outcome wait is zero")
    else if nat_beq settings.retry_wait 0
    then some (invalid_input "the wait between attempts is zero")
    else if runtime
    then none
    else some (invalid_input "the delivery queue needs an async runtime")

module _ {ℓ} {V : Type ℓ} where
  -- The task is spawned on the state before the first write is handed over; its steps come later.
  abbrev started : Shared V × WriteEnd → ℕ → StartResult V
  started (s, end) run_id = ok (record { shared = s; run_id = run_id }) (Task.new s) end

  abbrev start_checked : Option Error → ℕ → ℕ → ℕ → StartResult V
  start_checked (some e) start_id run_id now = err e
  start_checked none start_id run_id now =
      started (hand_over Shared.new now (Write.started run_id start_id)) run_id

  unfoldable pub start : QueueSettings → Bool → ℕ → ℕ → StartResult V
  unfolding check
  start settings runtime run_id now =
      start_checked (check settings runtime) settings.start_id run_id now

  abbrev handed : DeliveryQueue V → Shared V × WriteEnd → DeliveryQueue V × WriteEnd
  handed q (s, end) = (record q { shared = s }, end)

  unfoldable pub hand_fact : DeliveryQueue V → ℕ → ℕ → Fact V → DeliveryQueue V × WriteEnd
  hand_fact q now id f = handed q (hand_over q.shared now (Write.fact f id))

  unfoldable pub answer : DeliveryQueue V → ℕ → Content → DeliveryQueue V × WriteEnd
  answer q now content = handed q (hand_over q.shared now (Write.answer content))

  unfoldable pub saved_state : DeliveryQueue V → ℕ → V → DeliveryQueue V × WriteEnd
  saved_state q now state = handed q (hand_over q.shared now (Write.saved_state state))

  -- `inl` is the error.
  unfoldable pub plan_declared :
      DeliveryQueue V → ℕ → ℕ → List String → Option ℕ → Error ⊎ (DeliveryQueue V × WriteEnd)
  unfolding hand_fact
  plan_declared q now id [] declaration = inl (invalid_input "a plan declares at least one step")
  plan_declared q now id (step ∷ steps) declaration =
      inr (hand_fact q now id (Fact.plan q.run_id (step ∷ steps) declaration))

  unfoldable pub step_started :
      DeliveryQueue V → ℕ → ℕ → ℕ → String → ℕ → DeliveryQueue V × WriteEnd
  unfolding hand_fact
  step_started q now id index label started_at =
      hand_fact q now id (Fact.step q.run_id index label started_at)

  unfoldable pub completed : DeliveryQueue V → ℕ → ℕ → DeliveryQueue V × WriteEnd
  unfolding hand_fact
  completed q now id = hand_fact q now id (Fact.completed q.run_id)

  unfoldable pub failed : DeliveryQueue V → ℕ → ℕ → Failed V → DeliveryQueue V × WriteEnd
  unfolding hand_fact
  failed q now id failure = hand_fact q now id (Fact.failed q.run_id failure)

  pub state : DeliveryQueue V → QueueState
  state q = snapshot q.shared

  -- `Drop for DeliveryQueue`.
  unfoldable pub drop_queue : DeliveryQueue V → DeliveryQueue V
  drop_queue q = record q { shared = stop_now q.shared }
