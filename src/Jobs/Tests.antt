-- ===== src/Jobs/Tests.antt =====
-- The theorems on crates/br-runner-jobs at concrete inputs. A JSON value is a number.

use br_jobs_runner_kit.Jobs.Queue.Write.{WriteResult}
use br_jobs_runner_kit.Jobs.Queue.Task.Ends.{completed}
use br_jobs_runner_kit.Prelude.{Option}
use br_jobs_runner_kit.Jobs.Error.{lost, infra_missing}
use br_jobs_runner_kit.Jobs.Queue.Task.Ends.{WasPending, seen, sending}
use br_jobs_runner_kit.Prelude.{
  length, is_none, not, nat_beq, nat_eq, ◌&&◌, ◌||◌, ℕ, ◌+◌, ◌<◌, ◌≡◌, ◌↔◌, refl, true, false, List,
  [], ◌∷◌, none, some, arith, All, lookup, keys, count, ltb, if◌then◌else◌,
}
use br_jobs_runner_kit.Jobs.Error.{Error, unauthenticated, unavailable, transport}
use br_jobs_runner_kit.Jobs.Model.{Content, CreateChild, sync, kept}
use br_jobs_runner_kit.Jobs.Reason.{as_str, from_word}
use br_jobs_runner_kit.Jobs.Reason.Words.{as_str-from_word}
use br_jobs_runner_kit.Jobs.Queue.Write.{Write, Removal}
use br_jobs_runner_kit.Jobs.Queue.Deps.{
  blocked_keys, DepKey, Ended, dep_eq, blocked, own_key, depends_on,
}
use br_jobs_runner_kit.Jobs.Queue.Deps.Blocking.{
  Passes, rank, blocked-none_iff, blocked-create_refused, depends_on-rank,
}
use br_jobs_runner_kit.Jobs.Queue.Shared.{
  Entry, stored, waits, hand_over, enqueue, register, complete, report, insert_ordered,
  remove_ordered,
}
use br_jobs_runner_kit.Jobs.Queue.Shared
use br_jobs_runner_kit.Jobs.Queue.Shared.Accounts.{seqs, held_seqs}
use br_jobs_runner_kit.Jobs.Queue.Task.{
  timed_out, attempts, Sent, take_head, take_new_held, take_items, next_head, next_head_from,
  outcome_branch, attempt_once, Event, hands_over, holds, stops, turns, gates, outcomes, drops,
  sent, failed, run, step, listed,
}
use br_jobs_runner_kit.Jobs.Queue.Task
use br_jobs_runner_kit.Jobs.Queue.Task.Attempts.{all_resent, attempts-persist}
use br_jobs_runner_kit.Jobs.Queue.Task.Ends.{fresh, run-one_place, drops-all_ended, waits-drained}
use br_jobs_runner_kit.Jobs.EndWait
use br_jobs_runner_kit.Jobs.EndWait.{EndStore, Event as Told, ends, ends_feed, reopens, decide}
use br_jobs_runner_kit.Jobs.EndWait.Decisions.{
  told, first_outcome, standing, standing_of, decide-told_late, step-wakes,
}
use br_jobs_runner_kit.Jobs.Book.{
  key_eq, AgentKey, RestoredAgent, Book, no_agents, agent_for, check_restored,
}
use br_jobs_runner_kit.Jobs.Book.Restored.{all_v7, repeats, keys_of, ids_of, check_restored-passes}
use br_jobs_runner_kit.Jobs.Book.Stable.{Request, asked, agent_for-once}

as_str-from_word_example : as_str (from_word "busy") ≡ "busy"
as_str-from_word_example = as_str-from_word "busy"

abbrev child : CreateChild ℕ
child = record {
  command_id = 1;
  job_id = 2;
  runner_type = "worker";
  mode = sync;
  config = none;
  payload = kept;
  passport = 0;
  parent_job_id = 3;
  initial_job_id = 3;
  run_id = 4;
  max_attempts = none;
}

abbrev upload_refused : List (DepKey × Ended)
upload_refused =
    (DepKey.started, Ended.delivered) ∷ (DepKey.upload 2, Ended.refused unauthenticated) ∷ []

blocked-none_iff_example :
    (blocked (Write.create child) upload_refused ≡ none)
    ↔ All (λ key. Passes (lookup key upload_refused)) (depends_on (Write.create child))
blocked-none_iff_example = blocked-none_iff (Write.create child) upload_refused

blocked-create_refused_example :
    (blocked (Write.create child) upload_refused ≡ some (Removal.refused unauthenticated)) ↔ (
      Passes (lookup DepKey.started upload_refused)
      × (lookup (DepKey.upload 2) upload_refused ≡ some (Ended.refused unauthenticated)))
blocked-create_refused_example = blocked-create_refused child upload_refused unauthenticated

-- The cancel of the child's job.
abbrev cancel_child : Write ℕ
cancel_child = Write.cancel 4 2 5

depends_on-rank_example : All (λ k. rank k < 2) (depends_on (Write.create child))
depends_on-rank_example =
    depends_on-rank (Write.create child) (DepKey.create 2) (unfold own_key in refl)

abbrev answer_text : Content
answer_text = record { message = "done"; attachments = [] }

-- A start, an upload held with its create to follow, and an answer; one send fails once.
abbrev history : List (Event ℕ)
history =
    hands_over 10 (Write.started 4 9)
    ∷ holds 11 (Write.upload 2 answer_text) (some (Write.create child))
    ∷ turns
    ∷ outcomes (failed (unavailable (record { cause = transport; text = "down" })))
    ∷ hands_over 12 (Write.answer answer_text)
    ∷ outcomes sent
    ∷ gates 13 1 stored
    ∷ turns
    ∷ outcomes sent
    ∷ []

run-one_place_example :
    let t = run fresh history in
    (count 1 (seqs t.shared.fifo)
        + count 1 (held_seqs t.shared.new_held)
        + (count 1 (keys t.held) + count 1 (seqs (listed t.entry)))
        + count 1 (keys t.shared.ends)
      ≡ (if ltb 1 t.shared.next_seq then 1 else 0))
    × (count 1 (keys t.shared.pending) + count 1 (keys t.shared.ends)
        ≡ (if ltb 1 t.shared.next_seq then 1 else 0))
run-one_place_example = run-one_place history 1

drops-all_ended_example :
    let t = run (step (run fresh history) drops) (hands_over 20 cancel_child ∷ turns ∷ []) in
    (count 3 (keys t.shared.ends) ≡ (if ltb 3 t.shared.next_seq then 1 else 0))
    × (t.shared.pending ≡ [])
drops-all_ended_example = drops-all_ended history (hands_over 20 cancel_child ∷ turns ∷ []) 3

-- Within the `complete` of the one write, which was sent.
abbrev window : Option (Entry ℕ × WriteResult)
window = some (record { seq = 0; write = Write.started 4 9 }, WriteResult.ok)

abbrev one_write : List (Event ℕ)
one_write = hands_over 10 (Write.started 4 9) ∷ turns ∷ []

one_write-pending : WasPending (run fresh one_write).shared window
unfolding run step Task.new Shared.new hand_over enqueue register blocked blocked_keys depends_on
    take_head take_new_held take_items next_head next_head_from insert_ordered count
one_write-pending = refl

one_write-waits : waits (seen (run fresh one_write).shared window).pending 1 ≡ false
unfolding run step Task.new Shared.new hand_over enqueue register blocked blocked_keys depends_on
    take_head take_new_held take_items next_head next_head_from insert_ordered remove_ordered waits
one_write-waits = refl

waits-drained_example :
    count 0 (keys (seen (completed (run fresh one_write).shared []) window).ends) + sending 0 window
    ≡ (if ltb 0 (run fresh one_write).shared.next_seq then 1 else 0)
waits-drained_example =
    waits-drained one_write [] window 1 0 tt one_write-pending one_write-waits (omega arith)

-- The feed is lost, misses its infrastructure, and opens again before the wait looks.
abbrev arrivals : List (Told ℕ)
arrivals =
    ends 6 (EndWait.ok 60)
    ∷ ends_feed (lost (record { cause = transport; text = "cut" }))
    ∷ ends_feed (infra_missing "no stream")
    ∷ reopens
    ∷ []

abbrev feed_lost : Error
feed_lost = unavailable (record { cause = transport; text = "lost" })

abbrev empty_store : EndStore ℕ
empty_store = EndWait.new

decide-told_late_example :
    decide (EndWait.run empty_store arrivals) 5 empty_store.generation
    ≡ told
        (first_outcome 5 (lookup 5 empty_store.outcomes) arrivals)
        (standing (standing_of empty_store.kept) arrivals)
decide-told_late_example = decide-told_late empty_store arrivals 5

empty_store-waits : decide empty_store 5 0 ≡ none
unfolding decide EndWait.new lookup
empty_store-waits = refl

step-wakes_example :
    (is_none (decide (EndWait.step empty_store (ends 5 (EndWait.ok 50))) 5 0)
      || not
          (nat_beq (EndWait.step empty_store (ends 5 (EndWait.ok 50))).changed empty_store.changed))
    ≡ true
step-wakes_example = step-wakes empty_store (ends 5 (EndWait.ok 50)) 5 0 empty_store-waits

abbrev planner : AgentKey
planner = record { node = "planner"; label = "main" }

abbrev restored_agents : List RestoredAgent
restored_agents = record { key = planner; agent_id = 70; has_inbox = true } ∷ []

check_restored-passes_example : is_none (check_restored (λ id. ltb 9 id) restored_agents) ≡ (
    all_v7 (λ id. ltb 9 id) restored_agents
    && not (repeats (keys_of restored_agents))
    && not (repeats (ids_of restored_agents)))
check_restored-passes_example = check_restored-passes (λ id. ltb 9 id) restored_agents

abbrev book : Book ℕ
book = record { queue = Shared.new; run_id = 4; can_restart = true; agents = no_agents }

abbrev request : ℕ → Request
request fresh = record { now = 1; key = planner; inbox_label = true; fresh = fresh }

agent_for-once_example :
    let c = agent_for book 1 planner true 70 in
    agent_for (asked c.0 (request 71 ∷ [])) 1 planner true 72 ≡ (asked c.0 (request 71 ∷ []), c.1)
agent_for-once_example = agent_for-once book (request 70) (request 72) (request 71 ∷ [])

abbrev start_entry : Entry ℕ
start_entry = record { seq = 0; write = Write.started 4 9 }

-- Jobs is down, then no outcome comes, then the write is taken.
abbrev sends : List Sent
sends = failed feed_lost ∷ timed_out ∷ sent ∷ []

attempts-persist_example :
    (is_none (attempts Shared.new start_entry sends).1 ≡ all_resent start_entry.write sends)
    × ((if all_resent start_entry.write sends
          then length (attempts Shared.new start_entry sends).0.reports
          else length (Shared.new {V = ℕ}).reports + length sends)
        ≡ length (Shared.new {V = ℕ}).reports + length sends)
attempts-persist_example = attempts-persist Shared.new start_entry sends
