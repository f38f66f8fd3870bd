-- ===== src/Kit/RunLoop.antt =====
-- crates/br-jobs-runner-kit/src/run_loop.rs, and the `CancelEvent` of transport/cancel.rs. What the
-- runtime chooses is an event: which branch of the `select!` comes first, what a frame decodes to,
-- whether a publish is accepted, and how a spawned run ends.
pub mod Runs
pub mod Cases
pub mod Keeps
pub mod Invariant
pub mod Lost
pub mod Accept
pub mod Drain
use Prim.Native.String.{String}
use br_jobs_runner_kit.Prelude.{
  inl, inr, ◌⊎◌, ℕ, Bool, true, false, List, [], ◌∷◌, ◌++◌, Option, none, some, is_some, lookup,
  put, delete, nat_eq, nat_beq, ◌&&◌, if◌then◌else◌,
}
use br_jobs_runner_kit.Core.Slots.{
  SlotPool, ClaimDecision, claimed, at_capacity, draining, already_in_flight, try_claim, release,
  has_free_slot,
}
use br_jobs_runner_kit.Core.Slots
use br_jobs_runner_kit.Core.Cancel.{
  CancelSet, apply_put, apply_delete, replace_with_replay, is_cancelled,
}
use br_jobs_runner_kit.Core.Cancel
use br_jobs_runner_kit.Core.Presence.{PresenceSession, PresenceAction, poll, close}
use br_jobs_runner_kit.Core.Presence
use br_jobs_runner_kit.Kit.Facts.{RunFact, RunOutcome, completed, failed, retry_after_seconds}

pub data AckKind : Type 0 where
  ack nak term : AckKind

pub data CancelEvent : Type 0 where
  cancelled cleared : ℕ → CancelEvent
  reset : CancelEvent

pub record Trigger {ℓ} (V : Type ℓ) : Type ℓ where
  pub run_id : ℕ
  pub job_id : ℕ
  pub attempt : ℕ
  pub config : Option V

-- What a spawned task comes to.
pub data Stage : Type 0 where
  running returned panicked : Stage

pub record Spawned {ℓ} (V : Type ℓ) : Type ℓ where
  pub trigger : Trigger V
  pub stage : Stage

-- The variables of `run_loop`, and what it has said: to the presence bucket, to the status stream
-- (the runs whose start it tried to publish), on the trigger deliveries, and on the channel of facts. A token is
-- whether it was cancelled.
pub record Loop {ℓ} (V : Type ℓ) : Type ℓ where
  pub slots : SlotPool
  pub cancels : CancelSet
  pub tokens : List (ℕ × Bool)
  pub runs : List (Spawned V)
  pub presence : PresenceSession
  pub drain_deadline : Option ℕ
  pub ended : Bool
  pub announced : List ℕ
  pub answers : List AckKind
  pub facts : List (RunFact V)
  pub entries : List PresenceAction

module _ {ℓ} {V : Type ℓ} where
  unfoldable pub initial : SlotPool → PresenceSession → Loop V
  initial slots presence = record {
    slots = slots;
    cancels = Cancel.new;
    tokens = [];
    runs = [];
    presence = presence;
    drain_deadline = none;
    ended = false;
    announced = [];
    answers = [];
    facts = [];
    entries = [];
  }

  unfoldable pub finish_delivery : Loop V → AckKind → Loop V
  finish_delivery l kind = record l { answers = l.answers ++ kind ∷ [] }

  -- The last part of `accept_trigger`, behind the accepted `RunStarted`.
  unfoldable pub spawn : Loop V → Trigger V → Loop V
  spawn l trigger = record l {
    tokens = put trigger.run_id (is_cancelled l.cancels trigger.run_id) l.tokens;
    runs = l.runs ++ record { trigger = trigger; stage = running } ∷ [];
  }

  abbrev announce : Loop V → Trigger V → Bool → Loop V
  announce l trigger accepted =
      let started = record l { announced = l.announced ++ trigger.run_id ∷ [] } in
      if accepted
      then spawn (finish_delivery started ack) trigger
      else finish_delivery (record started { slots = (release l.slots trigger.run_id).0 }) nak

  abbrev pub claim : Loop V → Trigger V → Bool → SlotPool × ClaimDecision → Loop V
  claim l trigger accepted (slots, claimed) = announce (record l { slots = slots }) trigger accepted
  claim l trigger accepted (slots, already_in_flight) =
      finish_delivery (record l { slots = slots }) ack
  claim l trigger accepted (slots, at_capacity) = finish_delivery (record l { slots = slots }) nak
  claim l trigger accepted (slots, draining) = finish_delivery (record l { slots = slots }) nak

  -- The frame is what its payload decodes to; `accepted` is whether the publish succeeds.
  unfoldable pub accept_trigger : Loop V → Option (Trigger V) → Bool → Loop V
  unfolding finish_delivery spawn
  accept_trigger l none accepted = finish_delivery l term
  accept_trigger l (some trigger) accepted =
      if is_cancelled l.cancels trigger.run_id
      then finish_delivery l ack
      else claim l trigger accepted (try_claim l.slots trigger.run_id)

  abbrev config_of : V → Option V → V
  config_of null none = null
  config_of null (some config) = config

  abbrev fact_of : ℕ → RunOutcome V → RunFact V
  fact_of run_id completed = RunFact.completed run_id
  fact_of run_id (failed report retry_after) =
      RunFact.failed run_id report (retry_after_seconds retry_after)

  -- `decode` and `execute` are the runner's; `null` and `text` build JSON values.
  module _ {κ} {P : Type κ} (null : V) (text : String → V) (decode : V → String ⊎ P) where
    abbrev decoded : (P → RunOutcome V) → String ⊎ P → RunOutcome V
    decoded execute (inr payload) = execute payload
    decoded execute (inl error) =
        RunOutcome.failed
          (record { reason_code = "payload_invalid"; params = null; diagnostic = text error }) none

    unfoldable pub execute_run : (P → RunOutcome V) → Trigger V → RunFact V
    unfolding retry_after_seconds
    execute_run execute trigger =
        fact_of trigger.run_id (decoded execute (decode (config_of null trigger.config)))

-- The branches of the `select!`, each with what its future comes to.
pub data Branch {ℓ} (V : Type ℓ) : Type ℓ where
  shuts_down : ℕ → Branch V
  deadline_passes : Branch V
  delivers : Option (Trigger V) → Bool → Branch V
  hears_cancel : CancelEvent → Branch V
  joins : ℕ → Branch V
  heartbeat_due : Branch V

-- A round of the loop at an instant, or a spawned task that sends its fact and returns, or panics.
-- What a task works on its trigger is `execute_run`.
pub data Event {ℓ} (V : Type ℓ) : Type ℓ where
  rounds : ℕ → Branch V → Event V
  returns : ℕ → (Trigger V → RunFact V) → Event V
  panics : ℕ → Event V

module _ {ℓ} {V : Type ℓ} where
  abbrev pub publish : Loop V → PresenceSession × Option PresenceAction → Loop V
  publish l (presence, none) = record l { presence = presence }
  publish l (presence, some action) = record l {
    presence = presence;
    entries = l.entries ++ action ∷ [];
  }

  -- What stands behind the loop, once it has ended by `break`.
  unfoldable pub finish : Loop V → Loop V
  finish l = publish (record l { ended = true; runs = [] }) (close l.presence)

  abbrev cancel_token : Loop V → ℕ → Option Bool → Loop V
  cancel_token l run_id none = l
  cancel_token l run_id (some _) = record l { tokens = put run_id true l.tokens }

  unfoldable pub cancel_branch : Loop V → CancelEvent → Loop V
  cancel_branch l reset = record l { cancels = replace_with_replay l.cancels [] }
  cancel_branch l (cancelled run_id) =
      cancel_token (record l { cancels = apply_put l.cancels run_id }) run_id
        (lookup run_id l.tokens)
  cancel_branch l (cleared run_id) = record l { cancels = apply_delete l.cancels run_id }

  -- The spawned task of a run, and the others.
  unfoldable pub stage_of : ℕ → List (Spawned V) → Option Stage
  stage_of run_id [] = none
  stage_of run_id (s ∷ ss) =
      if nat_beq run_id s.trigger.run_id then some s.stage else stage_of run_id ss

  unfoldable pub without : ℕ → List (Spawned V) → List (Spawned V)
  without run_id [] = []
  without run_id (s ∷ ss) = if nat_beq run_id s.trigger.run_id then ss else s ∷ without run_id ss

  unfoldable pub staged : ℕ → Stage → List (Spawned V) → List (Spawned V)
  staged run_id stage [] = []
  staged run_id stage (s ∷ ss) =
      if nat_beq run_id s.trigger.run_id
      then record s { stage = stage } ∷ ss
      else s ∷ staged run_id stage ss

  -- `join_next` hands out a task that has ended: the slot is released where it returned.
  abbrev pub joined : Loop V → ℕ → Option Stage → Loop V
  joined l run_id (some returned) = record l {
    runs = without run_id l.runs;
    slots = (release l.slots run_id).0;
    tokens = delete run_id l.tokens;
  }
  joined l run_id (some panicked) = record l { runs = without run_id l.runs }
  joined l run_id _ = l

  unfoldable pub join_branch : Loop V → ℕ → Loop V
  unfolding stage_of without
  join_branch l run_id = joined l run_id (stage_of run_id l.runs)

  -- A branch whose condition does not hold is not taken.
  unfoldable pub select : Loop V → Branch V → Loop V
  select l (shuts_down deadline) = if is_some l.drain_deadline then l else record l {
    drain_deadline = some deadline;
    slots = Slots.begin_drain l.slots;
    presence = Presence.begin_drain l.presence;
  }
  select l deadline_passes = if is_some l.drain_deadline then finish l else l
  select l (delivers frame accepted) =
      if is_some l.drain_deadline
      then l
      else if has_free_slot l.slots
      then accept_trigger l frame accepted
      else l
  select l (hears_cancel event) = cancel_branch l event
  select l (joins run_id) = join_branch l run_id
  select l heartbeat_due = l

  abbrev pub is_empty : List (Spawned V) → Bool
  is_empty [] = true
  is_empty (s ∷ ss) = false

  unfoldable pub round : Loop V → ℕ → Branch V → Loop V
  round l now branch =
      let polled = publish l (poll l.presence now) in
      if is_some l.drain_deadline && is_empty l.runs then finish polled else select polled branch

  unfoldable pub sent_by : ℕ → (Trigger V → RunFact V) → List (Spawned V) → List (RunFact V)
  sent_by run_id work [] = []
  sent_by run_id work (s ∷ ss) =
      if nat_beq run_id s.trigger.run_id then work s.trigger ∷ [] else sent_by run_id work ss

  -- A task can end only while it runs.
  abbrev pub task_returns : Loop V → ℕ → (Trigger V → RunFact V) → Option Stage → Loop V
  task_returns l run_id work (some running) = record l {
    runs = staged run_id returned l.runs;
    facts = l.facts ++ sent_by run_id work l.runs;
  }
  task_returns l run_id work _ = l

  abbrev pub task_panics : Loop V → ℕ → Option Stage → Loop V
  task_panics l run_id (some running) = record l { runs = staged run_id panicked l.runs }
  task_panics l run_id _ = l

  unfoldable pub step : Loop V → Event V → Loop V
  unfolding stage_of staged sent_by
  step l (rounds now branch) = if l.ended then l else round l now branch
  step l (returns run_id work) = task_returns l run_id work (stage_of run_id l.runs)
  step l (panics run_id) = task_panics l run_id (stage_of run_id l.runs)

  unfoldable pub run : Loop V → List (Event V) → Loop V
  run l [] = l
  run l (e ∷ es) = run (step l e) es
