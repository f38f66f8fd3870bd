-- ===== src/Threads/Queue.antt =====
-- crates/br-runner-threads/src/queue and src/adapter/inner.rs: the items of the delivery queue, the
-- store that keeps them, and what the adapter holds for a thread. The bytes of a kept item are
-- given by what serde_json reads from them: an item, or the error that the source makes of the
-- failure. An instant is a number.

use br_jobs_runner_kit.Prelude.{
  ℕ, Bool, true, false, not, ◌&&◌, ◌||◌, List, [], ◌∷◌, ◌++◌, Option, none, some, nat_beq,
  if◌then◌else◌, length,
}
use br_jobs_runner_kit.Threads.Error.{Error, store, Result, ok, fail}
use br_jobs_runner_kit.Threads.Wire.{Chunk, CommandBody}

pub data ItemKind : Type 0 where
  whole_message opening chunk closing : ItemKind

abbrev pub is_opening : ItemKind → Bool
is_opening opening = true
is_opening _ = false

abbrev pub is_chunk : ItemKind → Bool
is_chunk chunk = true
is_chunk _ = false

abbrev pub is_closing : ItemKind → Bool
is_closing closing = true
is_closing _ = false

pub data Payload : Type 0 where
  command : CommandBody → Payload
  numbered_chunk : ℕ → Chunk → Payload

pub record Item : Type 0 where
  pub id : ℕ
  pub thread : ℕ
  pub agent : ℕ
  pub message : ℕ
  pub entries : List ℕ
  pub kind : ItemKind
  pub payload : Payload

pub record StoredItem : Type 0 where
  pub thread : ℕ
  pub id : ℕ
  pub bytes : Result Item

abbrev pub kept_item : Result Item → Item → ℕ → StoredItem
kept_item bytes item thread = record { thread = thread; id = item.id; bytes = bytes }

-- `Item::stored`, with what serde_json makes of the item: bytes, or an error.
unfoldable pub stored : Item → ℕ → Result (Result Item) → Result StoredItem
stored item thread (fail e) = fail e
stored item thread (ok bytes) = ok (kept_item bytes item thread)

-- `Item::read` behind the decoding; the test for a thread id is the contract crate's.
unfoldable pub read_item : (ℕ → Bool) → StoredItem → Result Item → Result Item
read_item is_thread s (fail e) = fail e
read_item is_thread s (ok item) =
    if not (is_thread item.thread)
    then fail (store "a kept item names a thread that is not a UUIDv7")
    else if not (nat_beq item.thread s.thread) || not (nat_beq item.id s.id)
    then fail (store "a kept item does not match the thread or id it was kept under")
    else ok item

unfoldable pub read : (ℕ → Bool) → StoredItem → Result Item
unfolding read_item
read is_thread s = read_item is_thread s s.bytes

-- `MemoryQueueStore`.
unfoldable pub append : List StoredItem → StoredItem → List StoredItem
append items item = items ++ item ∷ []

unfoldable pub remove_item : List StoredItem → ℕ → ℕ → List StoredItem
remove_item [] thread id = []
remove_item (s ∷ items) thread id =
    if nat_beq s.id id && nat_beq s.thread thread
    then remove_item items thread id
    else s ∷ remove_item items thread id

pub data ReportKind : Type 0 where
  attempt_failed item_refused item_dropped_unsent closing_failed remove_failed unsent : ReportKind

pub record QueueReport : Type 0 where
  pub kind : ReportKind
  pub thread : ℕ
  pub message_id : ℕ
  pub item_kind : ItemKind
  pub item_id : ℕ
  pub error : Option Error

pub record FailedAttempt : Type 0 where
  pub item_id : ℕ
  pub error : Error

pub record Queued : Type 0 where
  pub item : Item
  pub no : ℕ
  pub accepted_at : ℕ

pub record QueueInner : Type 0 where
  pub items : List Queued
  pub last_failure : Option FailedAttempt
  pub dropped : List ℕ
  pub worker_running : Bool
  pub last_no : ℕ

unfoldable pub empty_queue : QueueInner
empty_queue = record {
  items = [];
  last_failure = none;
  dropped = [];
  worker_running = false;
  last_no = 0;
}

pub record OldestItem : Type 0 where
  pub accepted_at : ℕ
  pub message_id : ℕ
  pub kind : ItemKind

pub record ThreadQueueState : Type 0 where
  pub thread : ℕ
  pub waiting : ℕ
  pub oldest : Option OldestItem
  pub last_failure : Option FailedAttempt

-- `state::of` for the queues of all slots.
unfoldable pub queue_state : List (ℕ × QueueInner) → List ThreadQueueState
queue_state [] = []
queue_state ((thread, queue) ∷ slots) =
    let rest = queue_state slots in
    elim queue.items [
      | [] ↦ rest
      | head ∷ items ↦
          record {
            thread = thread;
            waiting = length (head ∷ items);
            oldest = some (record {
              accepted_at = head.accepted_at;
              message_id = head.item.message;
              kind = head.item.kind;
            });
            last_failure = queue.last_failure;
          }
          ∷ rest
    ]
