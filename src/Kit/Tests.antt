-- ===== src/Kit/Tests.antt =====
-- The theorems on crates/br-jobs-runner-kit at concrete inputs. A JSON value is a number.
use br_jobs_runner_kit.Prelude.{
  ℕ, ◌≤◌, ◌≡◌, refl, true, false, not, ◌&&◌, ◌||◌, List, [], ◌∷◌, ◌++◌, none, some, lookup, put,
  length, contains, insert, delete, Distinct, is_none, nat_eq, leb, if◌then◌else◌,
}
use br_jobs_runner_kit.Core.Slots
use br_jobs_runner_kit.Core.Slots.{try_claim, has_free_slot}
use br_jobs_runner_kit.Core.Cancel.{apply_put, CancelSet, is_cancelled}
use br_jobs_runner_kit.Core.Cancel
use br_jobs_runner_kit.Core.Presence.{poll, next_due, PresenceSession, ready}
use br_jobs_runner_kit.Kit.RunLoop.{
  staged, cancel_branch, spawn, finish_delivery, select, round, ack, Loop, Trigger, Event, rounds,
  panics, delivers, hears_cancel, heartbeat_due, cancelled, term, running, panicked, initial,
  accept_trigger, join_branch, stage_of, is_empty, run, step,
}
use br_jobs_runner_kit.Kit.RunLoop.Runs.{ids}
use br_jobs_runner_kit.Kit.RunLoop.Invariant.{run-covered}
use br_jobs_runner_kit.Kit.RunLoop.Accept.{answer, taken_up, accept_trigger-answers}
use br_jobs_runner_kit.Kit.RunLoop.Lost.{join_branch-lost}
use br_jobs_runner_kit.Kit.RunLoop.Drain.{drain-quiet}
use br_jobs_runner_kit.Kit.CancelFeed.{
  Happening, put as puts, delete as deletes, entry, ends, opens, refuses, listen,
}
use br_jobs_runner_kit.Kit.CancelFeed.Listen.{stands, listen-stands}
use br_jobs_runner_kit.Kit.Publish.{Report, completion, publish_status}
use br_jobs_runner_kit.Kit.Publish.Attempts.{Persistent, publish_backoff, publish_status-Persistent}

abbrev session : PresenceSession
session = record { interval = 10; phase = ready; last_publish = none }

abbrev trigger : ℕ → Trigger ℕ
trigger r = record { run_id = r; job_id = 100; attempt = 1; config = none }

-- Two runs are taken up; the cancel of one comes, the other panics.
abbrev busy_history : List (Event ℕ)
busy_history =
    rounds 0 (delivers (some (trigger 7)) true)
    ∷ rounds 1 (delivers (some (trigger 8)) true)
    ∷ rounds 2 (hears_cancel (cancelled 7))
    ∷ panics 8
    ∷ []

run-covered_example :
    let l = run (initial (Slots.new 2) session) busy_history in
    (length l.slots.in_flight ≤ l.slots.capacity)
    × Distinct l.slots.in_flight
    × Distinct (ids l.runs)
    × ((contains 7 (ids l.runs) && not (contains 7 l.slots.in_flight)) ≡ false)
    × ((contains 7 (ids l.runs) && is_none (lookup 7 l.tokens)) ≡ false)
    × ((if contains 7 (ids l.runs) && is_cancelled l.cancels 7
          then lookup 7 l.tokens
          else some true)
        ≡ some true)
run-covered_example = run-covered 2 session busy_history 7

abbrev start : Loop ℕ
start = initial (Slots.new 2) session

accept_trigger-answers_example :
    let m = accept_trigger start (some (trigger 7)) true in
    (accept_trigger start none true ≡ record start { answers = start.answers ++ term ∷ [] })
    × (m.answers ≡ start.answers ++ answer start (trigger 7) true ∷ [])
    × (m.runs ≡ (
        if taken_up start (trigger 7) true
        then start.runs ++ record { trigger = trigger 7; stage = running } ∷ []
        else start.runs))
    × (m.tokens
        ≡ (if taken_up start (trigger 7) true then put 7 false start.tokens else start.tokens))
    × (answer start (trigger 7) true
        ≡ (if has_free_slot start.slots then ack else answer start (trigger 7) true))
accept_trigger-answers_example = accept_trigger-answers start (trigger 7) true

busy_history-panicked :
    stage_of 8 (run (initial (Slots.new 2) session) busy_history).runs ≡ some panicked
unfolding run step round select accept_trigger finish_delivery spawn try_claim has_free_slot poll
    next_due cancel_branch is_cancelled apply_put contains insert lookup put delete stage_of staged
    initial Slots.new Cancel.new
busy_history-panicked = refl

join_branch-lost_example :
    let m =
      run
        (join_branch (run (initial (Slots.new 2) session) busy_history) 8)
        (rounds 5 (delivers (some (trigger 8)) true) ∷ []) in
    (contains 8 m.slots.in_flight ≡ true) × (contains 8 (ids m.runs) ≡ false)
join_branch-lost_example =
    join_branch-lost 2 session busy_history (rounds 5 (delivers (some (trigger 8)) true) ∷ []) 8
      busy_history-panicked

abbrev draining_loop : Loop ℕ
draining_loop = record start { drain_deadline = some 600 }

drain-quiet_example :
    let m = run draining_loop (rounds 5 (delivers (some (trigger 8)) true) ∷ []) in
    (m.announced ≡ draining_loop.announced)
    × (m.answers ≡ draining_loop.answers)
    × (((step m (rounds 6 heartbeat_due)).ended || not (is_empty m.runs)) ≡ true)
drain-quiet_example =
    drain-quiet draining_loop (rounds 5 (delivers (some (trigger 8)) true) ∷ []) 6 heartbeat_due
      refl

abbrev happenings : List Happening
happenings =
    entry (some 7) puts
    ∷ entry none puts
    ∷ ends
    ∷ refuses
    ∷ opens
    ∷ entry (some 8) puts
    ∷ entry (some 7) deletes
    ∷ []

listen-stands_example :
    is_cancelled (listen Cancel.new true happenings) 7
    ≡ stands 7 (is_cancelled Cancel.new 7) true happenings
listen-stands_example = listen-stands 7 Cancel.new true happenings

publish_status-Persistent_example :
    (r : Report) × (publish_status completion (λ attempt. leb 3 attempt) ≡ some r)
    × Persistent (λ attempt. leb 3 attempt) 8 1 publish_backoff r
publish_status-Persistent_example = publish_status-Persistent completion (λ attempt. leb 3 attempt)
