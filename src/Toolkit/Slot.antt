-- ===== src/Toolkit/Slot.antt =====
-- crates/br-runner-toolkit/src/slot.rs: one slot, which takes work from the triggers or by claims.
-- The answers of jobs, and what the waits of the slot end with, are arguments.
pub mod Claims
use br_jobs_runner_kit.Prelude.{
  ℕ, ◌*◌, Bool, true, false, not, ◌&&◌, ◌||◌, Option, none, some, is_some, is_none, nat_beq,
  if◌then◌else◌,
}
use br_jobs_runner_kit.Jobs.Error.{Error, Refusal, refused, invalid_input}
use br_jobs_runner_kit.Jobs.Reason.{
  RefusalReason, busy, instance_unknown, claim_spent, malformed_claim,
}
use br_jobs_runner_kit.Toolkit.Shared.{
  Shared, LoopState, Mode, push, claim, can_ask, claims_stopped, stop_claims,
}

abbrev pub is_push : Mode → Bool
is_push push = true
is_push _ = false

abbrev pub is_claim : Mode → Bool
is_claim claim = true
is_claim _ = false

unfoldable pub must_wait : LoopState → Bool → Bool → Bool
must_wait state holds_claim claims_blocked =
    not (can_ask state) || (claims_blocked && (not (is_push state.mode) || holds_claim))

-- What a round of `run` does, from the state and the held claim.
pub data Choice : Type 0 where
  stops waits claims takes_trigger : Choice

unfoldable pub choose : Shared → Option ℕ → Choice
unfolding must_wait
choose s held =
    let claiming = is_some held || is_claim s.loop_state.mode in
    let claims_blocked = claiming && claims_stopped s in
    if s.draining
    then stops
    else if must_wait s.loop_state (is_some held) claims_blocked
    then waits
    else if claiming && not claims_blocked
    then claims
    else takes_trigger

-- The reply to a claim: the run that it gives, or none.
pub data Reply : Type 0 where
  work : ℕ → Reply
  nothing : Reply
  error : Error → Reply

-- What the slot does with the reply: `pauses` for the delay, or for the next beat.
pub data Next : Type 0 where
  executes drops : ℕ → Next
  goes_on : Next
  pauses : Option ℕ → Next

-- The claim that the slot asks with: the held one, or a new one.
unfoldable pub claim_id_of : Option ℕ → ℕ → ℕ
claim_id_of none fresh = fresh
claim_id_of (some held) fresh = held

-- Milliseconds in nanoseconds.
abbrev millis : Option ℕ → Option ℕ
millis none = none
millis (some ms) = some (ms * 1_000_000)

-- The arms on a refusal; the shared state, the held claim, and what comes next.
unfoldable pub refused_step : Shared → ℕ → ℕ → RefusalReason → Option ℕ → Shared × Option ℕ × Next
refused_step s claim_id epoch busy delay = (s, some claim_id, pauses (millis delay))
refused_step s claim_id epoch instance_unknown delay = (s, some claim_id, pauses none)
refused_step s claim_id epoch claim_spent delay = (s, none, goes_on)
refused_step s claim_id epoch _ delay = (stop_claims s epoch, none, goes_on)

-- `claim_step` behind its await: `s` is the state when the reply comes, `epoch` was read before
-- the claim was sent. The held claim was taken.
unfoldable pub claim_step : Shared → ℕ → ℕ → Reply → Shared × Option ℕ × Next
unfolding refused_step
claim_step s claim_id epoch (work run_id) =
    (s, none, if s.draining then drops run_id else executes run_id)
claim_step s claim_id epoch nothing = (s, none, goes_on)
claim_step s claim_id epoch (error (refused r)) =
    refused_step s claim_id epoch r.reason r.retry_after_ms
claim_step s claim_id epoch (error (invalid_input text)) = (stop_claims s epoch, none, goes_on)
claim_step s claim_id epoch (error e) = (s, some claim_id, pauses none)

-- What `push_step` waits for, in the order of its biased `select!`.
pub data Push : Type 0 where
  unusable : Push
  trigger : ℕ → Push
  drained : Push

pub data Taken : Type 0 where
  executed given_back : ℕ → Taken
  no_work : Taken

unfoldable pub given_back_when_draining : Shared → ℕ → Taken
given_back_when_draining s run_id = if s.draining then given_back run_id else executed run_id

unfoldable pub push_step : Shared → Push → Taken
unfolding given_back_when_draining
push_step s unusable = no_work
push_step s (trigger run_id) = given_back_when_draining s run_id
push_step s drained = no_work

-- The feed of the triggers: whether it is open, and the beat at which it closed.
pub record TriggerFeedState : Type 0 where
  pub feed : Bool
  pub closed_at_beat : Option ℕ

pub data Feeding : Type 0 where
  awaits_beat opens reads : Feeding

abbrev closed_now : Option ℕ → ℕ → Bool
closed_now none beat = false
closed_now (some closed) beat = nat_beq closed beat

-- What a round of the loop in `next_trigger` does first.
unfoldable pub feeding : TriggerFeedState → ℕ → Feeding
feeding t beat =
    if t.feed then reads else if closed_now t.closed_at_beat beat then awaits_beat else opens

-- What the round comes to: the opening, or the item of the feed.
pub data FeedEvent : Type 0 where
  opened open_failed feed_ended item : FeedEvent

unfoldable pub fed : TriggerFeedState → ℕ → FeedEvent → TriggerFeedState
fed t beat opened = record { feed = true; closed_at_beat = none }
fed t beat open_failed = record t { closed_at_beat = some beat }
fed t beat feed_ended = record { feed = false; closed_at_beat = some beat }
fed t beat item = t
