-- ===== src/Threads/Tests/Queues.antt =====
-- The theorems on the adapter of crates/br-runner-threads at concrete inputs.

use br_jobs_runner_kit.Prelude.{◌&&◌, not}
use br_jobs_runner_kit.Threads.Adapter.Stored.{Encodes}
use br_jobs_runner_kit.Threads.Adapter.{accept_stored}
use br_jobs_runner_kit.Threads.Error.{Error}
use br_jobs_runner_kit.Threads.Adapter.Machine.{
  restart, require_waits, require_wait, listed_or, ThreadAccessSettings,
}
use Prim.Native.String.{String}
use br_jobs_runner_kit.Prelude.{
  delete, put, All, length, contains, ◌<◌, ◌^◌, ℕ, ◌+◌, ◌≤◌, ◌≡◌, refl, Bool, true, false, ◌||◌,
  List, [], ◌∷◌, none, some, if◌then◌else◌, count, nat_eq, lookup, arith, Sub,
}
use br_jobs_runner_kit.Threads.Error.{Result, ok}
use br_jobs_runner_kit.Threads.Wire.{content, completed, create_thread}
use br_jobs_runner_kit.Threads.Queue.{
  append, stored, remove_item, empty_queue, numbered_chunk, Queued, chunk, StoredItem, Item,
  opening, command,
}
use br_jobs_runner_kit.Threads.Adapter.{
  Slot, enqueue, end_item, attempting, delivered, is_delivered, new_slot, accept_begins,
  accept_ends, queue_kept, remove_all, take_head, take_first, answered, item_removed, send_report,
}
use br_jobs_runner_kit.Threads.Adapter.Machine.{
  keep, task_step, slot_step, with_slot, or_new, step_on, step, removes, Adapter, Event, keeps,
  queues, loops, answers, drops, slot, run, new, read_all, requeue, new_inner,
}
use br_jobs_runner_kit.Threads.Adapter.Kept.{kept_of, waiting}
use br_jobs_runner_kit.Threads.Adapter.Durable.{kept_later, ids}
use br_jobs_runner_kit.Threads.Adapter.Recovery.{new-run}
use br_jobs_runner_kit.Threads.Adapter.Awake.{has_task, is_empty, run-awake}
use br_jobs_runner_kit.Threads.Adapter.Waits.{wait_past, is_past, entry_stored}
use br_jobs_runner_kit.Threads.Adapter.Waits
use br_jobs_runner_kit.Threads.Adapter.Waits.Drained.{wait_past-drained}
use br_jobs_runner_kit.Threads.Adapter.Waits.Entries.{entry_stored-ended}
use br_jobs_runner_kit.Threads.Turns.{Mem, AiTurnRef, WriteContext}
use br_jobs_runner_kit.Threads.Turns.Calls.{Call, opens, adds_entry, closes, calls}
use br_jobs_runner_kit.Threads.Turns.Protocol.{follow, phase_of}
use br_jobs_runner_kit.Threads.Turns.Ordered.{calls-follow}
use br_jobs_runner_kit.Threads.Tests.{library}

abbrev all_threads : ℕ → Bool
all_threads id = true

abbrev no_items : List StoredItem
no_items = []

abbrev empty_adapter : Adapter
empty_adapter = record {
  inner = record {
    kept = [];
    numbers = 0;
    refused = [];
    broken = [];
    stopped = false;
    reports = [];
  };
  slots = [];
}

abbrev settings : ThreadAccessSettings
settings = record { outcome_wait = 5; retry_wait = 2; keepalive_interval = 3 }

abbrev as_text : Error → String
as_text e = "error"

empty-new : new as_text settings all_threads (ok []) 0 ≡ ok empty_adapter
unfolding new restart read_all requeue new_inner require_waits require_wait listed_or
empty-new = refl

abbrev opening_of : ℕ → Item
opening_of id = record {
  id = id;
  thread = 1;
  agent = 3;
  message = id;
  entries = [];
  kind = opening;
  payload = command (create_thread id);
}

-- Two openings, of which the first is delivered but not removed when the adapter is dropped.
abbrev crash_events : List Event
crash_events =
    keeps (opening_of 5) (ok (ok (opening_of 5)))
    ∷ queues 1 0
    ∷ loops 1
    ∷ keeps (opening_of 6) (ok (ok (opening_of 6)))
    ∷ answers 1 (ok none)
    ∷ drops
    ∷ []

ids-fresh : (u k : ℕ) → count k (ids (kept_of u [])) + count k (kept_later u crash_events) ≤ 1
unfolding count kept_of kept_later
ids-fresh u k = ground arith

opening-Encodes : (id : ℕ) → Encodes (keeps (opening_of id) (ok (ok (opening_of id))))
opening-Encodes id bytes h = ground (arith, h)

crash-Encodes : All Encodes crash_events
crash-Encodes = (opening-Encodes 5, (tt, (tt, (opening-Encodes 6, (tt, (tt, tt))))))

new-run_example :
    let s = slot (run empty_adapter crash_events) 1 in
    (b : Adapter) × (new as_text settings all_threads
        (ok (run empty_adapter crash_events).inner.kept)
        9
      ≡ ok b)
    × Sub (waiting s.queue.items s.accepting) (waiting (slot b 1).queue.items none)
new-run_example =
    new-run as_text settings all_threads [] 0 9 empty_adapter crash_events 1 empty-new crash-Encodes
      (refl, (tt, (tt, (refl, (tt, (tt, tt)))))) ids-fresh

abbrev live_events : List Event
live_events = keeps (opening_of 5) (ok (ok (opening_of 5))) ∷ queues 1 0 ∷ []

run-awake_example :
    let s = slot (run empty_adapter live_events) 1 in
    (s.queue.worker_running ≡ has_task s.worker)
    × ((has_task s.worker || is_empty s.queue.items) ≡ true)
run-awake_example =
    run-awake as_text settings all_threads [] 0 empty_adapter live_events 1 empty-new
      (refl, (refl, tt))

abbrev context : WriteContext
context = record {
  agent = 3;
  author = "runner";
  job_id = none;
  acting_user_id = none;
  impersonator_id = none;
}

abbrev turn_ref : AiTurnRef
turn_ref = record { id = 4; agent = 3; author = "agent" }

abbrev no_turns : Mem
no_turns = record { turns = []; tip = none }

abbrev turn_calls : List ((Item → Result (Unit {0})) × Call)
turn_calls =
    (λ item. ok tt, opens turn_ref context 10)
    ∷ (λ item. ok tt, adds_entry turn_ref context 20 (content 9) 11 12)
    ∷ (λ item. ok tt, closes turn_ref (completed none) context false 13)
    ∷ []

calls-follow_example :
    follow library 4 (phase_of (lookup 4 no_turns.turns)) (calls library 1 no_turns turn_calls).1
    ≡ some (phase_of (lookup 4 (calls library 1 no_turns turn_calls).0.turns))
calls-follow_example = calls-follow library 4 1 no_turns turn_calls

-- A wait that began when the item 5 stood in the queue, behind its end.
abbrev end_events : List Event
end_events = loops 1 ∷ answers 1 (ok none) ∷ removes 1 none ∷ []

events-few : length no_items + length live_events + length end_events < 2 ^ 64
events-few = omega arith

wait-over :
    wait_past
      (slot (run (run empty_adapter live_events) end_events) 1).queue
      (slot (run empty_adapter live_events) 1).queue.last_no
    ≡ true
unfolding wait_past is_past run step step_on slot or_new with_slot slot_step keep task_step new_slot
    empty_queue accept_begins accept_stored accept_ends queue_kept enqueue remove_all take_head
    take_first answered end_item item_removed remove_item append stored lookup put delete contains
    send_report
wait-over = refl

wait_past-drained_example :
    let target = (slot (run empty_adapter live_events) 1).queue.last_no in
    All (λ q. q.no ≤ target) (slot (run empty_adapter live_events) 1).queue.items
    × All (λ q. target < q.no) (slot (run (run empty_adapter live_events) end_events) 1).queue.items
wait_past-drained_example =
    wait_past-drained as_text settings all_threads [] 0 empty_adapter live_events end_events 1
      empty-new events-few wait-over

-- An item that holds the entry 20.
abbrev entry_item : Item
entry_item = record {
  id = 8;
  thread = 1;
  agent = 3;
  message = 4;
  entries = 20 ∷ [];
  kind = chunk;
  payload = numbered_chunk 0 (content 9);
}

abbrev entry_queued : Queued
entry_queued = record { item = entry_item; no = 1; accepted_at = 0 }

abbrev entry_slot : Slot
entry_slot = record {
  thread = 1;
  queue = record {
    items = entry_queued ∷ [];
    last_failure = none;
    dropped = [];
    worker_running = true;
    last_no = 1;
  };
  worker = attempting entry_queued;
  accepting = none;
}

entry-held : contains 20 entry_item.entries ≡ true
unfolding contains
entry-held = refl

entry_stored-ended_example :
    let gone = contains 20 entry_slot.queue.dropped in
    (entry_stored (enqueue empty_adapter.inner entry_slot entry_item 3).1.queue 20 ≡ none)
    × (entry_stored entry_slot.queue 20 ≡ (if gone then some Waits.dropped else none))
    × (entry_stored (end_item empty_adapter.inner entry_slot entry_queued delivered).1.queue 20
        ≡ some (if is_delivered delivered && not gone then Waits.stored else Waits.dropped))
entry_stored-ended_example =
    entry_stored-ended empty_adapter.inner entry_slot entry_item 3 20 entry_queued [] delivered refl
      entry-held refl entry-held refl
