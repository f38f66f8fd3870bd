-- ===== src/Threads/Adapter/Apart.antt =====
-- An event of one thread and the items of the other threads.
use br_jobs_runner_kit.Threads.Queue.{stored}
use br_jobs_runner_kit.Threads.Adapter.{accept_stored}
use br_jobs_runner_kit.Prelude.{
  ◌∙◌, inr, inl, ◌⊎◌, ℕ, ◌≡◌, ◌≢◌, refl, ap, List, [], ◌∷◌, Option, none, some, arith, if_branches,
}
use br_jobs_runner_kit.Threads.Error.{Result, ok, fail}
use br_jobs_runner_kit.Threads.Queue.{Item, StoredItem, Queued, kept_item, append, remove_item}
use br_jobs_runner_kit.Threads.Adapter.{
  stored, accept_stored, Inner, Slot, Worker, absent, looping, attempting, removing, Ended,
  end_item, take_first, queue_kept, take_head, answered, item_removed, accept_begins, accept_ends,
  enqueue, MessageStatus,
}
use br_jobs_runner_kit.Threads.Adapter
use br_jobs_runner_kit.Threads.Adapter.Machine.{
  Event, keeps, queues, loops, answers, removes, slot_step, keep, task_step,
}
use br_jobs_runner_kit.Threads.Adapter.Kept.{kept_of, kept_of-append, kept_of-remove_item}

-- What an event of a slot does to the store: nothing, or it puts its item there, or removes one of
-- the thread.
abbrev pub Changes : Inner → Slot → Event → List StoredItem → Type 0
Changes inner s e kept =
    (kept ≡ inner.kept)
    ⊎ ((item : Item) × (bytes : Result Item) × (e ≡ keeps item (ok bytes))
        × (kept ≡ append inner.kept (kept_item bytes item s.thread)))
    ⊎ ((id : ℕ) × (kept ≡ remove_item inner.kept s.thread id))

abbrev pub Touches : Inner → Slot → Event → Inner × Slot → Type 0
Touches inner s e done = (done.1.thread ≡ s.thread) × Changes inner s e done.0.kept

module _ (inner : Inner) (s : Slot) (e : Event) where
  end_item-Touches :
      (told : Inner) (head : Queued) (how : Ended)
      → told.kept ≡ inner.kept
      → Touches inner s e (end_item told s head how)
  unfolding end_item
  end_item-Touches told head how q =
      (refl, inl (if_branches (λ (b : Inner). b.kept ≡ inner.kept) _ (λ r. q) (λ r. q)))

  take_first-Touches : (items : List Queued) → Touches inner s e (take_first inner s items)
  unfolding take_first
  take_first-Touches [] = (refl, inl refl)
  take_first-Touches (head ∷ items) =
      if_branches (Touches inner s e) _ (λ q. end_item-Touches _ head Adapter.unsent refl)
        (λ q. (refl, inl refl))

  answered-Touches :
      (head : Queued) (answer : Result (Option MessageStatus))
      → Touches inner s e (answered inner s head answer)
  unfolding answered
  answered-Touches head (ok status) =
      end_item-Touches _ head Adapter.delivered
        (if_branches (λ (b : Inner). b.kept ≡ inner.kept) _ (λ q. refl) (λ q. refl))
  answered-Touches head (fail x) =
      if_branches (Touches inner s e) _ (λ q. (refl, inl refl))
        (λ q.
          end_item-Touches _ head Adapter.refused
            (if_branches (λ (b : Inner). b.kept ≡ inner.kept) _ (λ r. refl) (λ r. refl)))

  queue_kept-Touches :
      (accepting : Option Item) (now : ℕ) → Touches inner s e (queue_kept inner s accepting now)
  unfolding queue_kept enqueue
  queue_kept-Touches none now = (refl, inl refl)
  queue_kept-Touches (some item) now =
      if_branches (Touches inner s e) _ (λ q. (refl, inl refl)) (λ q. (refl, inl refl))

  task_step-Touches : (w : Worker) (f : Event) → Touches inner s e (task_step inner s w f)
  unfolding task_step take_head item_removed
  task_step-Touches looping (loops thread) = take_first-Touches s.queue.items
  task_step-Touches (attempting head) (answers thread answer) = answered-Touches head answer
  task_step-Touches (removing head) (removes thread none) = (refl, inr (inr (head.item.id, refl)))
  task_step-Touches (removing head) (removes thread (some x)) = (refl, inl refl)
  task_step-Touches w f = (refl, inl refl)

keep-Touches :
    (inner : Inner) (s : Slot) (accepting : Option Item) (item : Item)
    (encoded : Result (Result Item))
    → Touches inner s (keeps item encoded) (keep inner s accepting item encoded)
unfolding keep accept_begins accept_stored stored
keep-Touches inner s none item (fail x) =
    if_branches
      (λ (done : Inner × Slot × Result (Unit {0})).
        Touches inner s (keeps item (fail x)) (done.0, done.1))
      _ (λ q. (refl, inl refl)) (λ q. (refl, inl refl))
keep-Touches inner s none item (ok bytes) =
    if_branches
      (λ (done : Inner × Slot × Result (Unit {0})).
        Touches inner s (keeps item (ok bytes)) (done.0, done.1))
      _ (λ q. (refl, inl refl)) (λ q. (refl, inr (inl (item, bytes, refl, refl))))
keep-Touches inner s (some other) item encoded = (refl, inl refl)

pub slot_step-Touches :
    (inner : Inner) (s : Slot) (e : Event) → Touches inner s e (slot_step inner s e)
unfolding slot_step accept_ends
slot_step-Touches inner s (keeps item encoded) = keep-Touches inner s s.accepting item encoded
slot_step-Touches inner s (queues thread now) = queue_kept-Touches inner s _ s.accepting now
slot_step-Touches inner s e = task_step-Touches inner s e s.worker e

-- The store keeps what it kept of another thread.
pub slot_step-leaves :
    (t : ℕ) (inner : Inner) (s : Slot) (e : Event)
    → s.thread ≢ t
    → kept_of t (slot_step inner s e).0.kept ≡ kept_of t inner.kept
slot_step-leaves t inner s e h = elim (slot_step-Touches inner s e).1 [
  | inl q ↦ ap (kept_of t) q
  | inr (inl (item, bytes, f, q)) ↦
      ap (kept_of t) q ∙ ground (arith, kept_of-append t s.thread inner.kept item bytes)
  | inr (inr (id, q)) ↦
      ap (kept_of t) q ∙ ground (arith, kept_of-remove_item t s.thread id inner.kept)
]
