-- ===== src/Threads/Adapter/Stored.antt =====
-- What the store keeps of the items of all threads, through the events of an adapter.
use br_jobs_runner_kit.Threads.Adapter.{accept_stored}
use br_jobs_runner_kit.Threads.Queue.{stored}
use br_jobs_runner_kit.Threads.Error.{Result, ok, fail}
use br_jobs_runner_kit.Prelude.{
  ℕ, ◌≡◌, refl, ap, subst, Bool, true, false, List, [], ◌∷◌, Option, none, some, arith, inl, inr,
  nat_eq, if◌then◌else◌, if_branches, ◌⊎◌,
}
use br_jobs_runner_kit.Threads.Error.{Error, Result, ok, fail}
use br_jobs_runner_kit.Threads.Queue.{Item, Queued}
use br_jobs_runner_kit.Threads.Adapter.{
  stored, accept_stored, Inner, Slot, new_slot, Worker, absent, looping, attempting, removing,
  pop_front, Ended, end_item, take_first, queue_kept, take_head, answered, item_removed,
  accept_begins, accept_ends, enqueue, send_report, MessageStatus,
}
use br_jobs_runner_kit.Threads.Adapter
use br_jobs_runner_kit.Threads.Adapter.Machine.{
  Event, keeps, queues, loops, answers, removes, slot_step, thread_of, keep, task_step,
}
use br_jobs_runner_kit.Threads.Adapter.Durable.{
  IsKept, kept_later, head_of, later_step, keep_step, queue_step, unqueue_step, pop_step,
  remove_step, turn_step,
}

-- serde_json reads from the bytes that it makes of an item the item.
abbrev pub Encodes : Event → Type 0
Encodes (keeps item encoded) = (bytes : Result Item) → encoded ≡ ok bytes → bytes ≡ ok item
Encodes e = Unit

-- A slot against the store.
abbrev pub SlotIsKept : Inner → Slot → List ℕ → Type 0
SlotIsKept inner s later = IsKept s.thread inner.kept s.queue.items s.accepting s.worker later

abbrev pub DoneIsKept : Inner × Slot → List ℕ → Type 0
DoneIsKept done later = SlotIsKept done.0 done.1 later

end_item-IsKept :
    (inner : Inner) (s : Slot) (head : Queued) (how : Ended) (later : List ℕ)
    → SlotIsKept inner s later
    → head_of s.queue.items ≡ some head
    → DoneIsKept (end_item inner s head how) later
unfolding end_item
end_item-IsKept inner s head how later i h =
    if_branches
      (λ (b : Inner).
        IsKept s.thread b.kept (pop_front s.queue.items) s.accepting (removing head) later)
      _ (λ e. pop_step s.thread inner.kept s.queue.items later s.accepting head s.worker i h)
      (λ e. pop_step s.thread inner.kept s.queue.items later s.accepting head s.worker i h)

keep-IsKept :
    (inner : Inner) (s : Slot) (accepting : Option Item) (item : Item)
    (encoded : Result (Result Item)) (later : List ℕ)
    → Encodes (keeps item encoded)
    → s.accepting ≡ accepting
    → SlotIsKept inner s (item.id ∷ later)
    → DoneIsKept (keep inner s accepting item encoded) later
unfolding keep accept_begins accept_stored stored
keep-IsKept inner s none item (fail x) later n e i =
    if_branches (λ (done : Inner × Slot × Result (Unit {0})). DoneIsKept (done.0, done.1) later)
      inner.stopped
      (λ q. later_step s.thread inner.kept s.queue.items later item.id s.accepting s.worker i)
      (λ q. later_step s.thread inner.kept s.queue.items later item.id s.accepting s.worker i)
keep-IsKept inner s none item (ok bytes) later n e i =
    if_branches (λ (done : Inner × Slot × Result (Unit {0})). DoneIsKept (done.0, done.1) later)
      inner.stopped
      (λ q. later_step s.thread inner.kept s.queue.items later item.id s.accepting s.worker i)
      (λ q. keep_step s.thread inner.kept s.queue.items later item bytes s.worker (n bytes refl) (
        subst (λ acc. IsKept s.thread inner.kept s.queue.items acc s.worker (item.id ∷ later)) e i))
keep-IsKept inner s (some other) item encoded later n e i =
    later_step s.thread inner.kept s.queue.items later item.id s.accepting s.worker i

running_cases :
    {w : Worker} (running : Bool)
    → ((if running then w else looping) ≡ w) ⊎ ((if running then w else looping) ≡ looping)
running_cases true = inl refl
running_cases false = inr refl

queue_kept-IsKept :
    (inner : Inner) (s : Slot) (accepting : Option Item) (now : ℕ) (later : List ℕ)
    → s.accepting ≡ accepting
    → SlotIsKept inner s later
    → DoneIsKept (queue_kept inner s accepting now) later
unfolding queue_kept enqueue
queue_kept-IsKept inner s none now later e i = i
queue_kept-IsKept inner s (some item) now later e i =
    let j = subst (λ acc. IsKept s.thread inner.kept s.queue.items acc s.worker later) e i in
    if_branches (λ (done : Inner × Slot). DoneIsKept done later) inner.stopped
      (λ q. unqueue_step s.thread inner.kept s.queue.items later item s.worker j)
      (λ q.
        queue_step s.thread inner.kept s.queue.items later _ s.worker _ j
          (running_cases s.queue.worker_running))

take_first-IsKept :
    (inner : Inner) (s : Slot) (items : List Queued) (later : List ℕ)
    → s.queue.items ≡ items
    → SlotIsKept inner s later
    → DoneIsKept (take_first inner s items) later
unfolding take_first
take_first-IsKept inner s [] later e i =
    turn_step s.thread inner.kept s.queue.items later s.accepting s.worker absent i (λ q a. cc) refl
take_first-IsKept inner s (head ∷ items) later e i =
    if_branches (λ (done : Inner × Slot). DoneIsKept done later) _
      (λ q. end_item-IsKept _ s head Adapter.unsent later i (ap head_of e))
      (λ q.
        turn_step s.thread inner.kept s.queue.items later s.accepting s.worker (attempting head) i
          (λ h a. ground arith) refl)

answered-IsKept :
    (inner : Inner) (s : Slot) (head : Queued) (answer : Result (Option MessageStatus))
    (later : List ℕ)
    → SlotIsKept inner s later
    → head_of s.queue.items ≡ some head
    → DoneIsKept (answered inner s head answer) later
unfolding answered
answered-IsKept inner s head (ok status) later i h =
    end_item-IsKept _ s head Adapter.delivered later
      (if_branches (λ (b : Inner). SlotIsKept b s later) _ (λ q. i) (λ q. i)) h
answered-IsKept inner s head (fail e) later i h =
    if_branches (λ (done : Inner × Slot). DoneIsKept done later) _
      (λ q.
        turn_step s.thread inner.kept s.queue.items later s.accepting s.worker looping i (λ p a. cc)
          refl)
      (λ q.
        end_item-IsKept _ s head Adapter.refused later
          (if_branches (λ (b : Inner). SlotIsKept b s later) _ (λ r. i) (λ r. i)) h)

item_removed-IsKept :
    (inner : Inner) (s : Slot) (head : Queued) (e : Option Error) (later : List ℕ)
    → s.worker ≡ removing head
    → SlotIsKept inner s later
    → DoneIsKept (item_removed inner s head e) later
unfolding item_removed
item_removed-IsKept inner s head none later w i =
    remove_step s.thread inner.kept s.queue.items later s.accepting head
      (subst (λ v. IsKept s.thread inner.kept s.queue.items s.accepting v later) w i)
item_removed-IsKept inner s head (some e) later w i =
    turn_step s.thread inner.kept s.queue.items later s.accepting s.worker looping i (λ p a. cc)
      refl

task_step-IsKept :
    (inner : Inner) (s : Slot) (w : Worker) (e : Event) (later : List ℕ)
    → s.worker ≡ w
    → SlotIsKept inner s later
    → DoneIsKept (task_step inner s w e) later
unfolding task_step take_head
task_step-IsKept inner s looping (loops thread) later q i =
    take_first-IsKept inner s s.queue.items later refl i
task_step-IsKept inner s (attempting head) (answers thread answer) later q i =
    answered-IsKept inner s head answer later i (i.attempted head q)
task_step-IsKept inner s (removing head) (removes thread e) later q i =
    item_removed-IsKept inner s head e later q i
task_step-IsKept inner s w e later q i = i

-- An event of the thread of the slot.
pub slot_step-IsKept :
    (inner : Inner) (s : Slot) (e : Event) (es : List Event)
    → thread_of e ≡ some s.thread
    → Encodes e
    → SlotIsKept inner s (kept_later s.thread (e ∷ es))
    → DoneIsKept (slot_step inner s e) (kept_later s.thread es)
unfolding slot_step kept_later accept_ends
slot_step-IsKept inner s (keeps item encoded) es h n i =
    keep-IsKept inner s s.accepting item encoded (kept_later s.thread es) n refl
      (subst (λ later. SlotIsKept inner s later) (ground (arith, kept_later)) i)
slot_step-IsKept inner s (queues thread now) es h n i =
    queue_kept-IsKept inner s s.accepting now (kept_later s.thread es) refl i
slot_step-IsKept inner s e es h n i =
    task_step-IsKept inner s s.worker e (kept_later s.thread es) refl i
