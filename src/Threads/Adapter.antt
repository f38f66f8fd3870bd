-- ===== src/Threads/Adapter.antt =====
-- crates/br-runner-threads/src/adapter/accept.rs, deliver.rs and mod.rs: the delivery queue of each
-- thread, its worker, and the whole adapter as a step machine. What the store and the service answer
-- are arguments: each function is cut at the awaits. A failed call leaves the store as it is.

pub mod Machine
pub mod Kept
pub mod Durable
pub mod Stored
pub mod Apart
pub mod Crash
pub mod Restart
pub mod Recovery
pub mod Awake
pub mod Waits
use br_jobs_runner_kit.Prelude.{
  ℕ, ◌+◌, ◌%◌, ◌^◌, Bool, true, false, not, ◌&&◌, List, [], ◌∷◌, ◌++◌, Option, none, some, nat_eq,
  contains, insert, remove, if◌then◌else◌,
}
use br_jobs_runner_kit.Threads.Error.{
  Error, unavailable, lost, unreadable, stream_broken, store, Result, ok, fail,
}
use br_jobs_runner_kit.Threads.Queue.{
  ItemKind, chunk, is_opening, is_chunk, is_closing, Item, StoredItem, stored, read, append,
  remove_item, ReportKind, QueueReport, FailedAttempt, Queued, QueueInner, empty_queue,
}
use br_jobs_runner_kit.Threads.Queue

-- The state of a message that a command is confirmed with.
pub data MessageStatus : Type 0 where
  streaming completed failed cancelled : MessageStatus

-- The parts of `Inner` that the queues share, with the store and the reports made.
pub record Inner : Type 0 where
  pub kept : List StoredItem
  pub numbers : ℕ
  pub refused : List ℕ
  pub broken : List ℕ
  pub stopped : Bool
  pub reports : List QueueReport

-- Where the task `run` of a slot stands: no task, at the top of its loop, awaiting the answer to an
-- attempt, or awaiting the store.
pub data Worker : Type 0 where
  absent looping : Worker
  attempting removing : Queued → Worker

-- A slot: its queue, its task, and the item that `accept` has in the store but not yet in the queue.
-- The order lock of the slot lets one `accept` run at a time.
pub record Slot : Type 0 where
  pub thread : ℕ
  pub queue : QueueInner
  pub worker : Worker
  pub accepting : Option Item

unfoldable pub new_slot : ℕ → Slot
unfolding empty_queue
new_slot thread = record { thread = thread; queue = empty_queue; worker = absent; accepting = none }

unfoldable pub send_report : Inner → QueueReport → Inner
send_report inner r = record inner { reports = inner.reports ++ r ∷ [] }

abbrev pub report_of : ReportKind → ℕ → Item → Option Error → QueueReport
report_of kind thread item error = record {
  kind = kind;
  thread = thread;
  message_id = item.message;
  item_kind = item.kind;
  item_id = item.id;
  error = error;
}

-- `accept` up to the answer of the store, with the item kept, if it could be stored.
unfoldable pub accept_stored :
    Inner → Slot → Item → Result StoredItem → Inner × Slot × Result (Unit {0})
unfolding append
accept_stored inner slot item (fail e) = (inner, slot, fail e)
accept_stored inner slot item (ok kept) =
    (record inner { kept = append inner.kept kept }, record slot { accepting = some item }, ok tt)

unfoldable pub accept_begins :
    Inner → Slot → Item → Result (Result Item) → Inner × Slot × Result (Unit {0})
unfolding accept_stored stored
accept_begins inner slot item encoded =
    if inner.stopped
    then (inner, slot, fail (store "the adapter is stopped"))
    else accept_stored inner slot item (stored item slot.thread encoded)

-- `remove` for each entry.
unfoldable pub remove_all : List ℕ → List ℕ → List ℕ
remove_all [] s = s
remove_all (k ∷ ks) s = remove_all ks (remove k s)

abbrev started : Worker → Worker
started absent = looping
started worker = worker

-- `enqueue`: the task is spawned unless it runs.
unfoldable pub enqueue : Inner → Slot → Item → ℕ → Inner × Slot
unfolding send_report remove_all
enqueue inner slot item now =
    let no = (inner.numbers + 1) % 2 ^ 64 in
    let numbered = record inner { numbers = no } in
    if inner.stopped
    then (send_report numbered (report_of Queue.unsent slot.thread item none), slot)
    else (
      numbered,
      record slot {
        queue = record slot.queue {
          items = slot.queue.items ++ record { item = item; no = no; accepted_at = now } ∷ [];
          dropped = remove_all item.entries slot.queue.dropped;
          worker_running = true;
          last_no = no;
        };
        worker = if slot.queue.worker_running then slot.worker else looping;
      },
    )

unfoldable pub queue_kept : Inner → Slot → Option Item → ℕ → Inner × Slot
unfolding enqueue
queue_kept inner slot none now = (inner, slot)
queue_kept inner slot (some item) now = enqueue inner (record slot { accepting = none }) item now

-- The end of `accept`.
unfoldable pub accept_ends : Inner → Slot → ℕ → Inner × Slot
unfolding queue_kept
accept_ends inner slot now = queue_kept inner slot slot.accepting now

pub data Ended : Type 0 where
  delivered refused unsent : Ended

abbrev pub is_delivered : Ended → Bool
is_delivered delivered = true
is_delivered _ = false

unfoldable pub retryable : ItemKind → Error → Bool
retryable chunk stream_broken = true
retryable chunk e = false
retryable kind (unavailable f) = true
retryable kind (lost f) = true
retryable kind (unreadable text) = true
retryable kind e = false

abbrev pub pop_front : List Queued → List Queued
pop_front [] = []
pop_front (head ∷ items) = items

-- `end_item` up to the call of the store.
unfoldable pub end_item : Inner → Slot → Queued → Ended → Inner × Slot
end_item inner slot head how = (
  if is_chunk head.item.kind && not (is_delivered how)
      then record inner { broken = insert head.item.message inner.broken }
      else inner,
  record slot {
    queue = record slot.queue {
      items = pop_front slot.queue.items;
      last_failure = none;
      dropped =
          if is_delivered how then slot.queue.dropped else head.item.entries ++ slot.queue.dropped;
    };
    worker = removing head;
  },
)

-- The rest of `end_item`, with the answer of the store.
unfoldable pub item_removed : Inner → Slot → Queued → Option Error → Inner × Slot
unfolding send_report remove_item
item_removed inner slot head none = (
  record inner { kept = remove_item inner.kept slot.thread head.item.id },
  record slot { worker = looping },
)
item_removed inner slot head (some e) = (
  send_report inner (report_of Queue.remove_failed slot.thread head.item (some e)),
  record slot { worker = looping },
)

unfoldable pub take_first : Inner → Slot → List Queued → Inner × Slot
unfolding end_item send_report
take_first inner slot [] =
    (inner, record slot { queue = record slot.queue { worker_running = false }; worker = absent })
take_first inner slot (head ∷ items) =
    if not (is_opening head.item.kind) && contains head.item.message inner.refused
    then end_item
        (send_report inner (report_of Queue.item_dropped_unsent slot.thread head.item none)) slot
        head unsent
    else (inner, record slot { worker = attempting head })

-- The top of the loop of `run`.
unfoldable pub take_head : Inner → Slot → Inner × Slot
unfolding take_first
take_head inner slot = take_first inner slot slot.queue.items

abbrev pub is_failed : Option MessageStatus → Bool
is_failed (some failed) = true
is_failed _ = false

-- The arms of `run` on the answer to an attempt; an opening that is refused for good is marked.
unfoldable pub answered : Inner → Slot → Queued → Result (Option MessageStatus) → Inner × Slot
unfolding end_item send_report retryable
answered inner slot head (ok status) =
    end_item
      (if is_failed status
        then send_report inner (report_of Queue.closing_failed slot.thread head.item none)
        else inner)
      slot head delivered
answered inner slot head (fail e) =
    if retryable head.item.kind e
    then (
      send_report inner (report_of Queue.attempt_failed slot.thread head.item (some e)),
      record slot {
        queue = record slot.queue {
          last_failure = some (record { item_id = head.item.id; error = e });
        };
        worker = looping;
      },
    )
    else let kind =
        if is_closing head.item.kind then Queue.closing_failed else Queue.item_refused in
      let told = send_report inner (report_of kind slot.thread head.item (some e)) in
      end_item
        (if is_opening head.item.kind
          then record told { refused = insert head.item.message told.refused }
          else told)
        slot head refused
