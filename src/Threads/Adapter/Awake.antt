-- ===== src/Threads/Adapter/Awake.antt =====
-- The tasks of the threads: which slots have one.
use br_jobs_runner_kit.Threads.Error.{Error}
use br_jobs_runner_kit.Threads.Adapter.Machine.{new, new-restart, ThreadAccessSettings}
use Prim.Native.String.{String}
use br_jobs_runner_kit.Threads.Adapter.{accept_stored}
use br_jobs_runner_kit.Threads.Queue.{stored}
use br_jobs_runner_kit.Prelude.{
  ℕ, ◌≡◌, refl, ap, sym, subst, ◌∙◌, Bool, true, false, ◌||◌, List, [], ◌∷◌, Option, none, some,
  arith, inl, inr, is_some, All, nat_beq, if◌then◌else◌, if_branches, lookup,
}
use br_jobs_runner_kit.Threads.Error.{Result, Result-cases, ok, fail}
use br_jobs_runner_kit.Threads.Queue.{Item, StoredItem, Queued, empty_queue}
use br_jobs_runner_kit.Threads.Adapter.{
  stored, accept_stored, Inner, Slot, new_slot, Worker, absent, looping, attempting, removing,
  pop_front, Ended, end_item, take_first, take_head, answered, item_removed, accept_begins,
  accept_ends, enqueue, queue_kept, send_report, MessageStatus,
}
use br_jobs_runner_kit.Threads.Adapter
use br_jobs_runner_kit.Threads.Adapter.Machine.{
  Adapter, Event, keeps, queues, loops, answers, removes, slot, or_new, with_slot, slot_step, step,
  step_on, run, thread_of, keep, task_step, restart, requeue, new_inner, read_all,
}
use br_jobs_runner_kit.Threads.Adapter.Crash.{slot-with_slot}

abbrev pub has_task : Worker → Bool
has_task absent = false
has_task w = true

abbrev pub is_empty : List Queued → Bool
is_empty [] = true
is_empty (q ∷ items) = false

-- The mark `worker_running` tells whether the slot has a task, and a queue that is not empty has one.
abbrev pub IsAwake : Slot → Type 0
IsAwake s =
    (s.queue.worker_running ≡ has_task s.worker)
    × ((has_task s.worker || is_empty s.queue.items) ≡ true)

-- An event on a slot of an adapter that was not dropped.
abbrev Wakes : Inner → Inner × Slot → Type 0
Wakes inner done = (done.0.stopped ≡ inner.stopped) × IsAwake done.1

spawned :
    (running : Bool) (w : Worker) (rest : Bool)
    → running ≡ has_task w
    → (true ≡ has_task (if running then w else looping))
      × ((has_task (if running then w else looping) || rest) ≡ true)
spawned true w rest h = (h, ground arith)
spawned false w rest h = (refl, refl)

enqueue-Wakes :
    (inner : Inner) (s : Slot) (item : Item) (now : ℕ)
    → inner.stopped ≡ false
    → IsAwake s
    → Wakes inner (enqueue inner s item now)
unfolding enqueue
enqueue-Wakes inner s item now h a =
    if_branches (Wakes inner) inner.stopped (λ q. absurd (ground (arith, q, h)))
      (λ q. (refl, spawned s.queue.worker_running s.worker _ a.0))

module _ (inner : Inner) (s : Slot) where
  end_item-Wakes :
      (told : Inner) (head : Queued) (how : Ended)
      → told.stopped ≡ inner.stopped
      → s.queue.worker_running ≡ true
      → Wakes inner (end_item told s head how)
  unfolding end_item
  end_item-Wakes told head how q w =
      (if_branches (λ (b : Inner). b.stopped ≡ inner.stopped) _ (λ r. q) (λ r. q), (w, refl))

  take_first-Wakes :
      (items : List Queued)
      → s.queue.items ≡ items
      → s.queue.worker_running ≡ true
      → Wakes inner (take_first inner s items)
  unfolding take_first
  take_first-Wakes [] e w = (refl, (refl, ground arith))
  take_first-Wakes (head ∷ items) e w =
      if_branches (Wakes inner) _ (λ q. end_item-Wakes _ head Adapter.unsent refl w)
        (λ q. (refl, (w, refl)))

  answered-Wakes :
      (head : Queued) (answer : Result (Option MessageStatus))
      → s.queue.worker_running ≡ true
      → Wakes inner (answered inner s head answer)
  unfolding answered
  answered-Wakes head (ok status) w =
      end_item-Wakes _ head Adapter.delivered
        (if_branches (λ (b : Inner). b.stopped ≡ inner.stopped) _ (λ q. refl) (λ q. refl)) w
  answered-Wakes head (fail x) w =
      if_branches (Wakes inner) _ (λ q. (refl, (w, refl)))
        (λ q.
          end_item-Wakes _ head Adapter.refused
            (if_branches (λ (b : Inner). b.stopped ≡ inner.stopped) _ (λ r. refl) (λ r. refl)) w)

  queue_kept-Wakes :
      (accepting : Option Item) (now : ℕ)
      → inner.stopped ≡ false
      → IsAwake s
      → Wakes inner (queue_kept inner s accepting now)
  unfolding queue_kept
  queue_kept-Wakes none now h a = (refl, a)
  queue_kept-Wakes (some item) now h a =
      enqueue-Wakes inner (record s { accepting = none }) item now h a

  keep-Wakes :
      (accepting : Option Item) (item : Item) (encoded : Result (Result Item))
      → IsAwake s
      → Wakes inner (keep inner s accepting item encoded)
  unfolding keep accept_begins accept_stored stored
  keep-Wakes none item (fail x) a =
      if_branches (λ (done : Inner × Slot × Result (Unit {0})). Wakes inner (done.0, done.1)) _
        (λ q. (refl, a)) (λ q. (refl, a))
  keep-Wakes none item (ok bytes) a =
      if_branches (λ (done : Inner × Slot × Result (Unit {0})). Wakes inner (done.0, done.1)) _
        (λ q. (refl, a)) (λ q. (refl, a))
  keep-Wakes (some other) item encoded a = (refl, a)

  task_step-Wakes :
      (w : Worker) (e : Event) → s.worker ≡ w → IsAwake s → Wakes inner (task_step inner s w e)
  unfolding task_step take_head item_removed
  task_step-Wakes looping (loops thread) q a =
      take_first-Wakes s.queue.items refl (a.0 ∙ ap has_task q)
  task_step-Wakes (attempting head) (answers thread answer) q a =
      answered-Wakes head answer (a.0 ∙ ap has_task q)
  task_step-Wakes (removing head) (removes thread none) q a = (refl, (a.0 ∙ ap has_task q, refl))
  task_step-Wakes (removing head) (removes thread (some x)) q a =
      (refl, (a.0 ∙ ap has_task q, refl))
  task_step-Wakes w e q a = (refl, a)

  slot_step-Wakes :
      (e : Event) → inner.stopped ≡ false → IsAwake s → Wakes inner (slot_step inner s e)
  unfolding slot_step accept_ends
  slot_step-Wakes (keeps item encoded) h a = keep-Wakes s.accepting item encoded a
  slot_step-Wakes (queues thread now) h a = queue_kept-Wakes s.accepting now h a
  slot_step-Wakes e h a = task_step-Wakes s.worker e refl a

start-IsAwake : (thread : ℕ) → IsAwake (new_slot thread)
unfolding new_slot empty_queue
start-IsAwake thread = (refl, refl)

-- An adapter that was not dropped, with its slots awake.
abbrev AllAwake : Adapter → Type 0
AllAwake a = (a.inner.stopped ≡ false) × ((t : ℕ) → IsAwake (slot a t))

start-AllAwake : (kept : List StoredItem) → AllAwake (record { inner = new_inner kept; slots = [] })
unfolding slot or_new lookup new_inner
start-AllAwake kept = (refl, λ t. start-IsAwake t)

with_slot-AllAwake :
    (a : Adapter) (u : ℕ) (done : Inner × Slot)
    → AllAwake a
    → Wakes a.inner done
    → AllAwake (with_slot a u done)
unfolding with_slot
with_slot-AllAwake a u done i w = (
  w.0 ∙ i.0,
  λ t.
      subst IsAwake (sym (slot-with_slot a u done t))
        (if_branches IsAwake (nat_beq t u) (λ q. w.1) (λ q. i.1 t)),
)

step_on-AllAwake :
    (a : Adapter) (e : Event) (on : Option ℕ)
    → is_some on ≡ true
    → AllAwake a
    → AllAwake (step_on a e on)
unfolding step_on
step_on-AllAwake a e none h i = cc
step_on-AllAwake a e (some u) h i =
    with_slot-AllAwake a u (slot_step a.inner (slot a u) e) i
      (slot_step-Wakes a.inner (slot a u) e i.0 (i.1 u))

requeue-AllAwake :
    (items : List Item) (a : Adapter) (now : ℕ) → AllAwake a → AllAwake (requeue a items now)
unfolding requeue
requeue-AllAwake [] a now i = i
requeue-AllAwake (item ∷ items) a now i = requeue-AllAwake items _ now (
    with_slot-AllAwake a item.thread (enqueue a.inner (slot a item.thread) item now) i
      (enqueue-Wakes a.inner (slot a item.thread) item now i.0 (i.1 item.thread)))

restart-AllAwake :
    (is_thread : ℕ → Bool) (kept : List StoredItem) (now : ℕ) (a : Adapter)
    → restart is_thread kept now ≡ ok a
    → AllAwake a
unfolding restart
restart-AllAwake is_thread kept now a h = elim (Result-cases (read_all is_thread kept)) [
  | inl (e, q) ↦ absurd (ground arith)
  | inr (items, q) ↦
      let start : Adapter = record { inner = new_inner kept; slots = [] } in
      let made : requeue start items now ≡ a = ground arith in
      subst AllAwake made (requeue-AllAwake items start now (start-AllAwake kept))
]

run-AllAwake :
    (es : List Event) (a : Adapter)
    → All (λ e. is_some (thread_of e) ≡ true) es
    → AllAwake a
    → AllAwake (run a es)
unfolding run step
run-AllAwake [] a n i = i
run-AllAwake (e ∷ es) a n i =
    run-AllAwake es (step a e) n.1 (step_on-AllAwake a e (thread_of e) n.0 i)

-- As long as the adapter is not dropped, whatever happens in whatever order: each thread whose queue
-- is not empty has its task, and the mark that `enqueue` reads before it spawns one tells exactly
-- whether there is one, so that no item waits without a task and no thread ever has two.
pub run-awake :
    (to_string : Error → String) (settings : ThreadAccessSettings) (is_thread : ℕ → Bool)
    (kept : List StoredItem) (now : ℕ) (a : Adapter) (es : List Event) (t : ℕ)
    → new to_string settings is_thread (ok kept) now ≡ ok a
    → All (λ e. is_some (thread_of e) ≡ true) es
    → let s = slot (run a es) t in
      (s.queue.worker_running ≡ has_task s.worker)
      × ((has_task s.worker || is_empty s.queue.items) ≡ true)
run-awake to_string settings is_thread kept now a es t h n =
    (run-AllAwake es a n (
        restart-AllAwake is_thread kept now a
          (new-restart to_string settings is_thread kept now a h).0)).1
      t
