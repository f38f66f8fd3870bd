-- ===== src/Threads/Adapter/Waits/Numbers.antt =====
-- The numbers in a queue, and how an event of a slot moves its items.
use br_jobs_runner_kit.Threads.Adapter.{accept_stored}
use br_jobs_runner_kit.Prelude.{
  ℕ, ◌+◌, ◌%◌, ◌^◌, ◌≤◌, ◌<◌, ◌≡◌, refl, List, [], ◌∷◌, ◌++◌, Option, none, some, arith, ◌⊎◌, inl,
  inr, if_branches, All,
}
use br_jobs_runner_kit.Threads.Error.{Result, ok, fail}
use br_jobs_runner_kit.Threads.Queue.{Item, Queued}
use br_jobs_runner_kit.Threads.Adapter.{
  stored, accept_stored, Inner, Slot, Worker, absent, looping, attempting, removing, pop_front,
  Ended, end_item, take_first, take_head, answered, item_removed, accept_begins, accept_ends,
  enqueue, queue_kept, MessageStatus,
}
use br_jobs_runner_kit.Threads.Adapter
use br_jobs_runner_kit.Threads.Adapter.Machine.{
  Event, keeps, queues, loops, answers, removes, slot_step, keep, task_step,
}

-- Numbers that rise from above `low` up to at most `high`.
abbrev pub Rises : ℕ → List Queued → ℕ → Type 0
Rises low [] high = low ≤ high
Rises low (q ∷ items) high = (low < q.no) × Rises q.no items high

pub Rises-bounds : (low : ℕ) (items : List Queued) (high : ℕ) → Rises low items high → low ≤ high
Rises-bounds low [] high h = h
Rises-bounds low (q ∷ items) high h = omega (arith, h.0, Rises-bounds q.no items high h.1)

pub Rises-below :
    (low : ℕ) (items : List Queued) (high : ℕ) → Rises low items high → All (λ q. q.no ≤ high) items
Rises-below low [] high h = tt
Rises-below low (q ∷ items) high h =
    (Rises-bounds q.no items high h.1, Rises-below q.no items high h.1)

pub Rises-above :
    (bound low : ℕ) (items : List Queued) (high : ℕ)
    → bound ≤ low
    → Rises low items high
    → All (λ q. bound < q.no) items
Rises-above bound low [] high b h = tt
Rises-above bound low (q ∷ items) high b h =
    (omega (arith, b, h.0), Rises-above bound q.no items high (omega (arith, b, h.0)) h.1)

pub Rises-append :
    (low : ℕ) (items : List Queued) (high : ℕ) (q : Queued)
    → Rises low items high
    → high < q.no
    → Rises low (items ++ q ∷ []) q.no
Rises-append low [] high q h n = (omega (arith, h, n), omega arith)
Rises-append low (p ∷ items) high q h n = (h.0, Rises-append p.no items high q h.1 n)

Rises-lower :
    (low lower : ℕ) (items : List Queued) (high : ℕ)
    → lower ≤ low
    → Rises low items high
    → Rises lower items high
Rises-lower low lower [] high l h = omega (arith, l, h)
Rises-lower low lower (q ∷ items) high l h = (omega (arith, l, h.0), h.1)

pub Rises-pop :
    (items : List Queued) (high : ℕ) → Rises 0 items high → Rises 0 (pop_front items) high
Rises-pop [] high h = h
Rises-pop (q ∷ items) high h = Rises-lower q.no 0 items high (omega arith) h.1

-- The number that `enqueue` gives out.
abbrev pub next_no : Inner → ℕ
next_no inner = (inner.numbers + 1) % 2 ^ 64

-- What an event of a slot does to its queue: its items stay, or the first is gone, and no number is
-- given out; or an item comes at the end, with the next number; or a number is given out in vain.
abbrev pub Moves : Inner → Slot → Inner × Slot → Type 0
Moves inner s done =
    ((done.0.numbers ≡ inner.numbers)
      × (done.1.queue.last_no ≡ s.queue.last_no)
      × ((done.1.queue.items ≡ s.queue.items) ⊎ (done.1.queue.items ≡ pop_front s.queue.items)))
    ⊎ ((done.0.numbers ≡ next_no inner)
        × (((done.1.queue.last_no ≡ s.queue.last_no) × (done.1.queue.items ≡ s.queue.items))
            ⊎ ((done.1.queue.last_no ≡ next_no inner)
                × ((q : Queued) × (q.no ≡ next_no inner)
                    × (done.1.queue.items ≡ s.queue.items ++ q ∷ [])))))

pub enqueue-Moves :
    (inner : Inner) (s : Slot) (item : Item) (now : ℕ) → Moves inner s (enqueue inner s item now)
unfolding enqueue
enqueue-Moves inner s item now =
    if_branches (Moves inner s) inner.stopped (λ q. inr (refl, inl (refl, refl)))
      (λ q. inr (refl, inr (refl, (_, refl, refl))))

module _ (inner : Inner) (s : Slot) where
  end_item-Moves :
      (told : Inner) (head : Queued) (how : Ended)
      → told.numbers ≡ inner.numbers
      → Moves inner s (end_item told s head how)
  unfolding end_item
  end_item-Moves told head how q =
      inl
        (if_branches (λ (b : Inner). b.numbers ≡ inner.numbers) _ (λ r. q) (λ r. q), refl, inr refl)

  take_first-Moves : (items : List Queued) → Moves inner s (take_first inner s items)
  unfolding take_first
  take_first-Moves [] = inl (refl, refl, inl refl)
  take_first-Moves (head ∷ items) =
      if_branches (Moves inner s) _ (λ q. end_item-Moves _ head Adapter.unsent refl)
        (λ q. inl (refl, refl, inl refl))

  answered-Moves :
      (head : Queued) (answer : Result (Option MessageStatus))
      → Moves inner s (answered inner s head answer)
  unfolding answered
  answered-Moves head (ok status) =
      end_item-Moves _ head Adapter.delivered
        (if_branches (λ (b : Inner). b.numbers ≡ inner.numbers) _ (λ q. refl) (λ q. refl))
  answered-Moves head (fail x) =
      if_branches (Moves inner s) _ (λ q. inl (refl, refl, inl refl))
        (λ q.
          end_item-Moves _ head Adapter.refused
            (if_branches (λ (b : Inner). b.numbers ≡ inner.numbers) _ (λ r. refl) (λ r. refl)))

  queue_kept-Moves :
      (accepting : Option Item) (now : ℕ) → Moves inner s (queue_kept inner s accepting now)
  unfolding queue_kept
  queue_kept-Moves none now = inl (refl, refl, inl refl)
  queue_kept-Moves (some item) now = enqueue-Moves inner (record s { accepting = none }) item now

  task_step-Moves : (w : Worker) (e : Event) → Moves inner s (task_step inner s w e)
  unfolding task_step take_head item_removed
  task_step-Moves looping (loops thread) = take_first-Moves s.queue.items
  task_step-Moves (attempting head) (answers thread answer) = answered-Moves head answer
  task_step-Moves (removing head) (removes thread none) = inl (refl, refl, inl refl)
  task_step-Moves (removing head) (removes thread (some x)) = inl (refl, refl, inl refl)
  task_step-Moves w e = inl (refl, refl, inl refl)

  keep-Moves :
      (accepting : Option Item) (item : Item) (encoded : Result (Result Item))
      → Moves inner s (keep inner s accepting item encoded)
  unfolding keep accept_begins accept_stored br_jobs_runner_kit.Threads.Queue.stored
  keep-Moves none item (fail x) =
      if_branches (λ (done : Inner × Slot × Result (Unit {0})). Moves inner s (done.0, done.1))
        inner.stopped (λ q. inl (refl, refl, inl refl)) (λ q. inl (refl, refl, inl refl))
  keep-Moves none item (ok bytes) =
      if_branches (λ (done : Inner × Slot × Result (Unit {0})). Moves inner s (done.0, done.1))
        inner.stopped (λ q. inl (refl, refl, inl refl)) (λ q. inl (refl, refl, inl refl))
  keep-Moves (some other) item encoded = inl (refl, refl, inl refl)

  pub slot_step-Moves : (e : Event) → Moves inner s (slot_step inner s e)
  unfolding slot_step accept_ends
  slot_step-Moves (keeps item encoded) = keep-Moves s.accepting item encoded
  slot_step-Moves (queues thread now) = queue_kept-Moves s.accepting now
  slot_step-Moves e = task_step-Moves s.worker e
