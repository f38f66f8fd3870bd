-- ===== src/Toolkit/Tests.antt =====
-- The theorems on crates/br-runner-toolkit at concrete inputs.
use br_jobs_runner_kit.Prelude.{◌||◌, ◌&&◌, not, nat_beq}
use br_jobs_runner_kit.Prelude.{
  ℕ, ◌+◌, ◌<◌, ◌≡◌, ◌↔◌, refl, true, false, not, ◌||◌, List, [], ◌∷◌, Option, none, some, is_some,
  nat_eq, nat_beq, arith, contains, insert, lookup, put, delete, if◌then◌else◌,
}
use br_jobs_runner_kit.Jobs.Error.{unauthenticated}
use br_jobs_runner_kit.Toolkit.Shared.{
  not_stopped, Shared, RunRecord, push, claim, Call, registers, makes_order, changes_mode,
  begins_stop, ends_stop, new, mode_changed, stop_claims, claims_stopped, can_ask, run, step,
  register_run, new_record, order_made, trigger,
}
use br_jobs_runner_kit.Toolkit.Shared.Orders.{run-orders_heard}
use br_jobs_runner_kit.Toolkit.Shared.Counted.{changes, asks}
use br_jobs_runner_kit.Toolkit.Shared.Epochs.{stop_claims-epoch}
use br_jobs_runner_kit.Toolkit.Slot.{
  choose, waits, claims, takes_trigger, is_claim, is_push, claim_step, executes, work, error,
  TriggerFeedState, feeding, fed, awaits_beat, opens, reads, opened, open_failed, feed_ended,
}
use br_jobs_runner_kit.Toolkit.Slot
use br_jobs_runner_kit.Toolkit.Slot.Claims.{is_repeated, is_final, choose_iff, claim_step-replies}

-- The order of the run 7 comes before the run, that of 8 behind it.
abbrev calls : List Call
calls = makes_order 7 ∷ registers 7 70 ∷ registers 8 80 ∷ makes_order 8 ∷ []

abbrev eight : RunRecord
eight = record { run_id = 8; job_id = 80; cancelled = true; started_pending = true }

eight-found : lookup 8 (run new calls).runs ≡ some eight
unfolding run step new register_run new_record order_made trigger lookup put delete contains insert
eight-found = refl

eight-ordered : contains 8 (run new calls).known_cancels ≡ true
unfolding run step new register_run new_record order_made trigger lookup put delete contains insert
eight-ordered = refl

run-orders_heard_example : eight.cancelled ≡ true
run-orders_heard_example = run-orders_heard calls 8 eight eight-found eight-ordered

-- A stop for the first mode is on its way when the mode changes, and is stored behind the change.
abbrev mode_calls : List Call
mode_calls = changes_mode claim ∷ begins_stop 1 ∷ []

abbrev late_stop : List Call
late_stop = registers 7 70 ∷ ends_stop 1 ∷ []

mode_calls-few : changes mode_calls + 1 < not_stopped
unfolding changes
mode_calls-few = omega arith

late_stop-same : changes late_stop ≡ 0
unfolding changes
late_stop-same = omega arith

stop_claims-epoch_example :
    let t = mode_changed (run new mode_calls) push in
    let u = run t late_stop in
    (claims_stopped t ≡ false)
    × ((claims_stopped u && not (asks t.mode_epoch late_stop)) ≡ false)
    × (claims_stopped (stop_claims u 2) ≡ (nat_beq 2 u.mode_epoch || claims_stopped u))
stop_claims-epoch_example =
    stop_claims-epoch mode_calls late_stop push 2 mode_calls-few late_stop-same

abbrev claiming : Shared
claiming = record {
  loop_state = record { mode = claim; replay_complete = true };
  draining = false;
  mode_epoch = 3;
  stopped_epoch = 2;
  runs = [];
  known_cancels = [];
  storing = [];
}

abbrev no_claim : Option ℕ
no_claim = none

choose_iff_example :
    ((choose claiming no_claim ≡ Slot.stops) ↔ (claiming.draining ≡ true))
    × ((choose claiming no_claim ≡ claims) ↔ (
        (claiming.draining
          || not (can_ask claiming.loop_state)
          || claims_stopped claiming
          || not (is_some no_claim || is_claim claiming.loop_state.mode))
        ≡ false))
    × ((choose claiming no_claim ≡ takes_trigger) ↔ (
        (claiming.draining
          || not (claiming.loop_state.replay_complete)
          || not (is_push claiming.loop_state.mode)
          || is_some no_claim)
        ≡ false))
choose_iff_example = choose_iff claiming no_claim

claim_step-replies_example :
    let after = claim_step claiming 9 3 (error unauthenticated) in
    (after.1 ≡ (if is_repeated (error unauthenticated) then some 9 else none))
    × (after.0 ≡ (if is_final (error unauthenticated) then stop_claims claiming 3 else claiming))
    × ((after.2 ≡ executes 7) ↔ ((error unauthenticated ≡ work 7) × (claiming.draining ≡ false)))
claim_step-replies_example = claim_step-replies claiming 9 3 (error unauthenticated) 7

abbrev shut_feed : TriggerFeedState
shut_feed = record { feed = false; closed_at_beat = none }
