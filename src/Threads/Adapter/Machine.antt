-- ===== src/Threads/Adapter/Machine.antt =====
-- crates/br-runner-threads/src/adapter/mod.rs and inner.rs: the adapter with its slots, from its
-- construction over what a store kept to its drop, as a step machine of the calls and the tasks of
-- all threads in any interleaving.

use Prim.Native.String.{String}
use br_jobs_runner_kit.Prelude.{
  ℕ, ◌≡◌, refl, arith, inl, inr, nat_beq, if◌then◌else◌, Bool, true, false, List, [], ◌∷◌, ◌++◌,
  Option, none, some, nat_eq, lookup, put,
}
use br_jobs_runner_kit.Threads.Error.{
  Error, Result, Result-cases, invalid_input, from_store, ok, fail, ◌>>=◌,
}
use br_jobs_runner_kit.Threads.Queue.{Item, StoredItem, read, QueueReport, Queued}
use br_jobs_runner_kit.Threads.Queue
use br_jobs_runner_kit.Threads.Adapter.{
  Worker, Inner, Slot, new_slot, absent, attempting, removing, looping, accept_begins, accept_ends,
  enqueue, take_head, answered, item_removed, report_of, MessageStatus,
}

pub record Adapter : Type 0 where
  pub inner : Inner
  pub slots : List (ℕ × Slot)

unfoldable pub or_new : ℕ → Option Slot → Slot
or_new thread none = new_slot thread
or_new thread (some s) = s

-- `Inner::slot`: a slot that is asked for the first time is new.
unfoldable pub slot : Adapter → ℕ → Slot
unfolding or_new
slot a thread = or_new thread (lookup thread a.slots)

-- What a part of the adapter did to its state and a slot.
unfoldable pub with_slot : Adapter → ℕ → Inner × Slot → Adapter
with_slot a thread done = record { inner = done.0; slots = put thread done.1 a.slots }

unfoldable pub read_all : (ℕ → Bool) → List StoredItem → Result (List Item)
read_all is_thread [] = ok []
read_all is_thread (s ∷ kept) = do
  item ← read is_thread s
  items ← read_all is_thread kept
  ok (item ∷ items)

-- The loop of `new` over what the store kept.
unfoldable pub requeue : Adapter → List Item → ℕ → Adapter
unfolding slot with_slot
requeue a [] now = a
requeue a (item ∷ items) now =
    requeue (with_slot a item.thread (enqueue a.inner (slot a item.thread) item now)) items now

unfoldable pub new_inner : List StoredItem → Inner
new_inner kept = record {
  kept = kept;
  numbers = 0;
  refused = [];
  broken = [];
  stopped = false;
  reports = [];
}

-- `ThreadAccessAdapter::new` over what the store listed; a kept item stands under its own thread, which
-- `read` has compared.
unfoldable pub restart : (ℕ → Bool) → List StoredItem → ℕ → Result Adapter
unfolding read_all requeue new_inner
restart is_thread kept now = do
  leftovers ← read_all is_thread kept
  ok (requeue (record { inner = new_inner kept; slots = [] }) leftovers now)

pub record ThreadAccessSettings : Type 0 where
  pub outcome_wait : ℕ
  pub retry_wait : ℕ
  pub keepalive_interval : ℕ

-- `require_wait` with the text of its error.
unfoldable pub require_wait : ℕ → String → Result (Unit {0})
require_wait wait text = if nat_beq wait 0 then fail (invalid_input text) else ok tt

unfoldable pub require_waits : ThreadAccessSettings → Result (Unit {0})
unfolding require_wait
require_waits settings = do
  outcome ← require_wait settings.outcome_wait "the outcome wait is zero"
  retry ← require_wait settings.retry_wait "the wait between attempts is zero"
  require_wait settings.keepalive_interval "the keepalive interval is zero"

-- `map_err(Error::from_store)`.
unfoldable pub listed_or : (Error → String) → Result (List StoredItem) → Result (List StoredItem)
listed_or to_string (ok kept) = ok kept
listed_or to_string (fail e) = fail (from_store to_string e)

-- `ThreadAccessAdapter::new`, with what the store answers to `list`.
unfoldable pub new :
    (Error → String)
    → ThreadAccessSettings
    → (ℕ → Bool)
    → Result (List StoredItem)
    → ℕ
    → Result Adapter
unfolding require_waits listed_or
new to_string settings is_thread listed now = do
  waits ← require_waits settings
  kept ← listed_or to_string listed
  restart is_thread kept now

-- With waits that are not zero and a store that lists its items it is `restart`.
pub new-restart :
    (to_string : Error → String) (settings : ThreadAccessSettings) (is_thread : ℕ → Bool)
    (kept : List StoredItem) (now : ℕ) (a : Adapter)
    → new to_string settings is_thread (ok kept) now ≡ ok a
    → (restart is_thread kept now ≡ ok a)
      × ((kept' : List StoredItem) (later : ℕ)
          → new to_string settings is_thread (ok kept') later ≡ restart is_thread kept' later)
unfolding new listed_or
new-restart to_string settings is_thread kept now a h =
    elim (Result-cases (require_waits settings)) [
      | inl (e, q) ↦ absurd (ground arith)
      | inr (u, q) ↦ (ground arith, λ kept' later. rw q refl)
    ]

-- `Drop`: the tasks are aborted and each waiting item is reported.
unfoldable pub unsent_of : ℕ → List Queued → List QueueReport
unsent_of thread [] = []
unsent_of thread (q ∷ items) = report_of Queue.unsent thread q.item none ∷ unsent_of thread items

unfoldable pub unsent_reports : List (ℕ × Slot) → List QueueReport
unfolding unsent_of
unsent_reports [] = []
unsent_reports ((thread, s) ∷ slots) = unsent_of thread s.queue.items ++ unsent_reports slots

unfoldable pub abort_all : List (ℕ × Slot) → List (ℕ × Slot)
abort_all [] = []
abort_all ((thread, s) ∷ slots) = (thread, record s { worker = absent }) ∷ abort_all slots

unfoldable pub drop_adapter : Adapter → Adapter
unfolding unsent_reports abort_all
drop_adapter a = record {
  inner = record a.inner { stopped = true; reports = a.inner.reports ++ unsent_reports a.slots };
  slots = abort_all a.slots;
}

-- What happens in an adapter: an item, made for its thread, is put into the store if serde_json
-- makes bytes of it, an item that is there gets into
-- the queue, the task of a thread goes round its loop, gets an answer from the service or from the
-- store, or the adapter is dropped.
pub data Event : Type 0 where
  keeps : Item → Result (Result Item) → Event
  queues : ℕ → ℕ → Event
  loops : ℕ → Event
  answers : ℕ → Result (Option MessageStatus) → Event
  removes : ℕ → Option Error → Event
  drops : Event

unfoldable pub keep : Inner → Slot → Option Item → Item → Result (Result Item) → Inner × Slot
keep inner s none item encoded =
    let begun = accept_begins inner s item encoded in (begun.0, begun.1)
keep inner s (some other) item encoded = (inner, s)

-- What the task of a slot does with an event, where it stands.
unfoldable pub task_step : Inner → Slot → Worker → Event → Inner × Slot
task_step inner s looping (loops thread) = take_head inner s
task_step inner s (attempting head) (answers thread answer) = answered inner s head answer
task_step inner s (removing head) (removes thread e) = item_removed inner s head e
task_step inner s worker e = (inner, s)

-- The event on one slot; an event for which the slot is not ready does nothing.
unfoldable pub slot_step : Inner → Slot → Event → Inner × Slot
unfolding keep task_step
slot_step inner s (keeps item encoded) = keep inner s s.accepting item encoded
slot_step inner s (queues thread now) = accept_ends inner s now
slot_step inner s e = task_step inner s s.worker e

abbrev pub thread_of : Event → Option ℕ
thread_of (keeps item encoded) = some item.thread
thread_of (queues thread now) = some thread
thread_of (loops thread) = some thread
thread_of (answers thread answer) = some thread
thread_of (removes thread e) = some thread
thread_of drops = none

unfoldable pub step_on : Adapter → Event → Option ℕ → Adapter
unfolding slot with_slot slot_step drop_adapter
step_on a e none = drop_adapter a
step_on a e (some thread) = with_slot a thread (slot_step a.inner (slot a thread) e)

unfoldable pub step : Adapter → Event → Adapter
unfolding step_on
step a e = step_on a e (thread_of e)

unfoldable pub run : Adapter → List Event → Adapter
unfolding step
run a [] = a
run a (e ∷ es) = run (step a e) es
