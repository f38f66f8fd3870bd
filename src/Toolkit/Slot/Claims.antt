-- ===== src/Toolkit/Slot/Claims.antt =====
-- What a slot does next, and which claim it asks with.
use br_jobs_runner_kit.Prelude.{
  ℕ, Bool, ◌≡◌, ◌≢◌, ◌↔◌, true, false, not, ◌||◌, Option, none, some, is_some, arith, if◌then◌else◌,
}
use br_jobs_runner_kit.Jobs.Error.{refused, invalid_input}
use br_jobs_runner_kit.Jobs.Reason.{claim_spent, busy, instance_unknown}
use br_jobs_runner_kit.Toolkit.Shared.{Shared, can_ask, claims_stopped, stop_claims}
use br_jobs_runner_kit.Toolkit.Slot.{
  reads, is_push, is_claim, must_wait, choose, stops, claims, takes_trigger, Reply, work, nothing,
  error, executes, claim_step, refused_step, TriggerFeedState, feeding, fed, awaits_beat, opens,
  opened, open_failed, feed_ended,
}

-- What a round does, in full: it asks for nothing before the replay is complete, without an entry
-- or while draining; it claims exactly if it holds a claim or the mode is to claim, and the claims
-- are not stopped; and it takes a trigger exactly in the push mode with no claim held, so that no
-- trigger is ever taken over an open claim.
pub choose_iff :
    (s : Shared) (held : Option ℕ)
    → ((choose s held ≡ stops) ↔ (s.draining ≡ true))
      × ((choose s held ≡ claims) ↔ (
          (s.draining
            || not (can_ask s.loop_state)
            || claims_stopped s
            || not (is_some held || is_claim s.loop_state.mode))
          ≡ false))
      × ((choose s held ≡ takes_trigger) ↔ (
          (s.draining
            || not (s.loop_state.replay_complete)
            || not (is_push s.loop_state.mode)
            || is_some held)
          ≡ false))
unfolding choose must_wait can_ask
choose_iff s held = (ground arith, ground arith, ground arith)

-- The replies behind which the slot asks again: jobs is busy or does not know the instance, or no
-- answer came.
pub is_repeated : Reply → Bool
is_repeated (error (refused r)) = elim r.reason [
  | busy ↦ true
  | instance_unknown ↦ true
  | _ ↦ false
]
is_repeated (error (invalid_input text)) = false
is_repeated (error e) = true
is_repeated _ = false

-- The replies that end all claims of the mode.
pub is_final : Reply → Bool
is_final (error (refused r)) = elim r.reason [
  | busy ↦ false
  | instance_unknown ↦ false
  | claim_spent ↦ false
  | _ ↦ true
]
is_final (error (invalid_input text)) = true
is_final _ = false

-- The whole of `claim_step` behind the reply: the claim is held on, under the same id, exactly if
-- it is to be repeated, and then no work is done; the claims are stopped exactly behind a refusal
-- for good or a claim that could not be made, for the epoch that was read before the claim was
-- sent; and a run is executed exactly if the reply gives it and the drain has not begun.
pub claim_step-replies :
    (s : Shared) (claim_id epoch : ℕ) (reply : Reply) (run_id : ℕ)
    → let after = claim_step s claim_id epoch reply in
      (after.1 ≡ (if is_repeated reply then some claim_id else none))
      × (after.0 ≡ (if is_final reply then stop_claims s epoch else s))
      × ((after.2 ≡ executes run_id) ↔ ((reply ≡ work run_id) × (s.draining ≡ false)))
unfolding claim_step refused_step is_repeated is_final
claim_step-replies s claim_id epoch (work given) run_id = ground arith
claim_step-replies s claim_id epoch nothing run_id = ground arith
claim_step-replies s claim_id epoch (error (refused r)) run_id = ground arith
claim_step-replies s claim_id epoch (error e) run_id = ground arith

-- The feed of the triggers is tried at most once in each beat: behind an opening that failed, or an
-- end of the feed, the slot waits in the same beat and opens the feed in any other; behind an
-- opening that worked it reads.
pub feeding-fed :
    (t : TriggerFeedState) (beat later : ℕ)
    → t.feed ≡ false
    → beat ≢ later
    → (feeding (fed t beat open_failed) beat ≡ awaits_beat)
      × (feeding (fed t beat open_failed) later ≡ opens)
      × (feeding (fed t beat feed_ended) beat ≡ awaits_beat)
      × (feeding (fed t beat feed_ended) later ≡ opens)
      × (feeding (fed t beat opened) beat ≡ reads)
unfolding feeding fed
feeding-fed t beat later shut h = ground arith
