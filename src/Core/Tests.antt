-- ===== src/Core/Tests.antt =====
-- The theorems on crates/br-jobs-runner-core at concrete inputs.
use br_jobs_runner_kit.Prelude.{◌&&◌, not}
use br_jobs_runner_kit.Prelude.{
  ℕ, ◌*◌, ◌^◌, ◌≤◌, ◌<◌, min, ◌≡◌, ◌↔◌, refl, true, false, ◌||◌, List, [], ◌∷◌, none, some, arith,
  All, get_elem?, length, contains, Distinct, ◌==◌, nat_eq, if◌then◌else◌,
}
use br_jobs_runner_kit.Core.Backoff
use br_jobs_runner_kit.Core.Backoff.{Backoff, next_delay, reset, delays}
use br_jobs_runner_kit.Core.Backoff.Delays.{new-delays_bounds, reset-delays_doubling}
use br_jobs_runner_kit.Core.Slots
use br_jobs_runner_kit.Core.Slots.{SlotPool, try_claim, has_free_slot, claimed, begin_drain}
use br_jobs_runner_kit.Core.Slots.Capacity
use br_jobs_runner_kit.Core.Slots.Capacity.{
  Call, claims, releases, drains, run-new_bounded, try_claim_iff, begin_drain-run,
}
use br_jobs_runner_kit.Core.Cancel
use br_jobs_runner_kit.Core.Cancel.{CancelSet, is_cancelled}
use br_jobs_runner_kit.Core.Cancel.Replay
use br_jobs_runner_kit.Core.Cancel.Replay.{
  Event, put, delete, replay, last_word, is_cancelled-run, run-Distinct,
}
use br_jobs_runner_kit.Core.Presence.{PresenceSession, ready}
use br_jobs_runner_kit.Core.Presence.Actions
use br_jobs_runner_kit.Core.Presence.Actions.{
  polls, closes, Orderly, actions, actions-Orderly, poll_refreshes, begin_drain-poll,
}

-- A base of 5 and a cap of 60, counted in any unit.
abbrev five_to_sixty : Backoff
five_to_sixty = record { base = 5; cap = 60; attempts = 0 }

new-delays_bounds_example : (0 < 5) × All (λ d. (5 ≤ d) × (d ≤ 60)) (delays 6 five_to_sixty)
new-delays_bounds_example =
    new-delays_bounds 5 60 five_to_sixty 6 (omega arith) (unfold Backoff.new in refl)

reset-delays_doubling_example :
    get_elem? (delays 6 (reset five_to_sixty)) 3 ≡ some (min (5 * 2 ^ 3) 60)
reset-delays_doubling_example =
    reset-delays_doubling five_to_sixty 6 3 (omega arith) (omega arith) (omega arith)

abbrev slot_calls : List Call
slot_calls = claims 7 ∷ claims 8 ∷ claims 9 ∷ releases 7 ∷ claims 9 ∷ drains ∷ claims 7 ∷ []

run-new_bounded_example :
    Distinct (Capacity.run (Slots.new 2) slot_calls).in_flight
    × (length (Capacity.run (Slots.new 2) slot_calls).in_flight ≤ 2)
run-new_bounded_example = run-new_bounded 2 slot_calls

abbrev half_full : SlotPool
half_full = record { capacity = 2; in_flight = 7 ∷ []; draining = false }

try_claim_iff_example :
    let after = (try_claim half_full 8).0 in
    (((try_claim half_full 8).1 ≡ claimed)
      ↔ ((has_free_slot half_full ≡ true) × (contains 8 half_full.in_flight ≡ false)))
    × (contains 8 (try_claim half_full 8).0.in_flight ≡ (
        if has_free_slot half_full
        then ◌==◌ {A = ℕ} 8 8 || contains 8 half_full.in_flight
        else contains 8 half_full.in_flight))
    × (after ≡ (
        if has_free_slot half_full && not (contains 8 half_full.in_flight)
        then record half_full { in_flight = after.in_flight }
        else half_full))
try_claim_iff_example = try_claim_iff half_full 8 8

abbrev cancel_history : List Event
cancel_history = put 3 ∷ put 4 ∷ delete 3 ∷ replay (3 ∷ 5 ∷ []) ∷ delete 5 ∷ put 3 ∷ []

is_cancelled-run_example :
    is_cancelled (Replay.run Cancel.new cancel_history) 3 ≡ last_word 3 false cancel_history
is_cancelled-run_example = is_cancelled-run 3 cancel_history

abbrev fresh_session : PresenceSession
fresh_session = record { interval = 10; phase = ready; last_publish = none }

actions-Orderly_example : Orderly ready (
    actions fresh_session
      (polls 0 ∷ polls 5 ∷ polls 10 ∷ Actions.drains ∷ polls 11 ∷ closes ∷ polls 90 ∷ []))
actions-Orderly_example =
    actions-Orderly fresh_session
      (polls 0 ∷ polls 5 ∷ polls 10 ∷ Actions.drains ∷ polls 11 ∷ closes ∷ polls 90 ∷ [])
