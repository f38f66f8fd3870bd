-- ===== src/Threads/Adapter/Waits/Drained.antt =====
-- What stands in a queue when a wait on it ends.
use br_jobs_runner_kit.Threads.Error.{Error}
use br_jobs_runner_kit.Threads.Adapter.Machine.{new, new-restart, ThreadAccessSettings}
use Prim.Native.String.{String}
use br_jobs_runner_kit.Prelude.{
  ℕ, ◌+◌, ◌%◌, ◌^◌, ◌≤◌, ◌<◌, ◌≡◌, sym, subst, ◌∙◌, Bool, true, List, [], ◌∷◌, Option, none, some,
  arith, inl, inr, if_branches, All, ltb→lt, length, nat_beq, nat_eq, lookup,
}
use br_jobs_runner_kit.Threads.Error.{Result-cases, ok}
use br_jobs_runner_kit.Threads.Queue.{read, Item, StoredItem, Queued, empty_queue}
use br_jobs_runner_kit.Threads.Adapter.{Inner, Slot, new_slot, enqueue}
use br_jobs_runner_kit.Threads.Adapter.Machine.{
  Adapter, Event, slot, or_new, with_slot, slot_step, step, step_on, run, drop_adapter, thread_of,
  restart, new_inner, read_all, requeue,
}
use br_jobs_runner_kit.Threads.Adapter.Crash.{slot-with_slot, or_new-abort_all}
use br_jobs_runner_kit.Threads.Adapter.Waits.{wait_past, is_past}
use br_jobs_runner_kit.Threads.Adapter.Waits.Numbers.{
  Rises, Rises-below, Rises-above, Rises-append, Rises-pop, Moves, enqueue-Moves, slot_step-Moves,
}

-- The items of a slot have rising numbers up to its last one, which the counter has reached.
abbrev IsNumbered : ℕ → Slot → Type 0
IsNumbered numbers s = Rises 0 s.queue.items s.queue.last_no × (s.queue.last_no ≤ numbers)

-- The counter has given out at most `n` numbers, and all slots are numbered.
abbrev AllNumbered : ℕ → Adapter → Type 0
AllNumbered n a = (a.inner.numbers ≤ n) × ((t : ℕ) → IsNumbered a.inner.numbers (slot a t))

small_no : (n m : ℕ) → n ≤ m → m + 1 < 2 ^ 64 → (n + 1) % 2 ^ 64 ≡ n + 1
small_no n m h b = omega (arith, h, b)

Rises-as :
    {items items' : List Queued} {high high' : ℕ}
    → items' ≡ items
    → high' ≡ high
    → Rises 0 items high
    → Rises 0 items' high'
Rises-as {items} {items'} {high} {high'} i l r =
    subst (λ x. Rises 0 x high') (sym i) (subst (Rises 0 items) (sym l) r)

-- An event of a slot gives out at most one number, and keeps its numbers rising.
IsNumberedBy : ℕ → Inner → Inner × Slot → Type 0
IsNumberedBy n inner done =
    (inner.numbers ≤ done.0.numbers) × (done.0.numbers ≤ n + 1) × IsNumbered done.0.numbers done.1

Moves-IsNumbered :
    (inner : Inner) (s : Slot) (done : Inner × Slot) (n : ℕ)
    → inner.numbers ≤ n
    → n + 1 < 2 ^ 64
    → Moves inner s done
    → IsNumbered inner.numbers s
    → IsNumberedBy n inner done
unfolding IsNumberedBy
Moves-IsNumbered inner s done n h b (inl (e, l, inl i)) r =
    (omega (arith, e), omega (arith, e, h), (Rises-as i l r.0, omega (arith, e, l, r.1)))
Moves-IsNumbered inner s done n h b (inl (e, l, inr i)) r = (
  omega (arith, e),
  omega (arith, e, h),
  (Rises-as i l (Rises-pop s.queue.items s.queue.last_no r.0), omega (arith, e, l, r.1)),
)
Moves-IsNumbered inner s done n h b (inr (e, inl (l, i))) r =
    let next = small_no inner.numbers n h b in
    (
      omega (arith, e, next),
      omega (arith, e, next, h),
      (Rises-as i l r.0, omega (arith, e, next, l, r.1)),
    )
Moves-IsNumbered inner s done n h b (inr (e, inr (l, (q, m, i)))) r =
    let next = small_no inner.numbers n h b in
    (
      omega (arith, e, next),
      omega (arith, e, next, h),
      (
        Rises-as i (l ∙ sym m)
            (Rises-append 0 s.queue.items s.queue.last_no q r.0 (omega (arith, m, next, r.1))),
        omega (arith, e, l),
      ),
    )

with_slot-AllNumbered :
    (a : Adapter) (u : ℕ) (done : Inner × Slot) (n : ℕ)
    → AllNumbered n a
    → IsNumberedBy n a.inner done
    → AllNumbered (n + 1) (with_slot a u done)
unfolding with_slot IsNumberedBy
with_slot-AllNumbered a u done n i d = (
  d.1,
  λ t. subst (IsNumbered done.0.numbers) (sym (slot-with_slot a u done t)) (
      if_branches (IsNumbered done.0.numbers) (nat_beq t u) (λ q. d.2)
        (λ q. ((i.1 t).0, omega (arith, (i.1 t).1, d.0)))),
)

step_on-AllNumbered :
    (a : Adapter) (e : Event) (on : Option ℕ) (n : ℕ)
    → n + 1 < 2 ^ 64
    → AllNumbered n a
    → AllNumbered (n + 1) (step_on a e on)
unfolding step_on drop_adapter slot
step_on-AllNumbered a e none n b i = (
  omega (arith, i.0),
  λ t. subst (IsNumbered a.inner.numbers) (sym (or_new-abort_all a.slots t)) (i.1 t),
)
step_on-AllNumbered a e (some u) n b i =
    let done = slot_step a.inner (slot a u) e in
    with_slot-AllNumbered a u done n i (
      Moves-IsNumbered a.inner (slot a u) done n i.0 b (slot_step-Moves a.inner (slot a u) e)
        (i.1 u))

run-AllNumbered :
    (es : List Event) (a : Adapter) (n : ℕ)
    → n + length es < 2 ^ 64
    → AllNumbered n a
    → AllNumbered (n + length es) (run a es)
unfolding run step
run-AllNumbered [] a n b i = (omega (arith, i.0), i.1)
run-AllNumbered (e ∷ es) a n b i =
    let r =
      run-AllNumbered es (step a e) (n + 1) (omega (arith, b))
        (step_on-AllNumbered a e (thread_of e) n (omega (arith, b)) i) in
    (omega (arith, r.0), r.1)

requeue-AllNumbered :
    (items : List Item) (a : Adapter) (now n : ℕ)
    → n + length items < 2 ^ 64
    → AllNumbered n a
    → AllNumbered (n + length items) (requeue a items now)
unfolding requeue
requeue-AllNumbered [] a now n b i = (omega (arith, i.0), i.1)
requeue-AllNumbered (item ∷ items) a now n b i =
    let s = slot a item.thread in
    let done = enqueue a.inner s item now in
    let r =
      requeue-AllNumbered items (with_slot a item.thread done) now (n + 1) (omega (arith, b)) (
        with_slot-AllNumbered a item.thread done n i (
          Moves-IsNumbered a.inner s done n i.0 (omega (arith, b))
            (enqueue-Moves a.inner s item now) (i.1 item.thread))) in
    (omega (arith, r.0), r.1)

length-read_all :
    (is_thread : ℕ → Bool) (kept : List StoredItem) (items : List Item)
    → read_all is_thread kept ≡ ok items
    → length items ≡ length kept
unfolding read_all
length-read_all is_thread [] items h = ground arith
length-read_all is_thread (s ∷ kept) items h = elim (Result-cases (read is_thread s)) [
  | inl (e, q) ↦ absurd (ground arith)
  | inr (item, q) ↦ elim (Result-cases (read_all is_thread kept)) [
    | inl (e, r) ↦ absurd (ground arith)
    | inr (rest, r) ↦ ground (arith, length-read_all is_thread kept rest r)
  ]
]

start-AllNumbered :
    (kept : List StoredItem) → AllNumbered 0 (record { inner = new_inner kept; slots = [] })
unfolding slot or_new lookup new_inner new_slot empty_queue
start-AllNumbered kept = (omega arith, λ t. (omega arith, omega arith))

restart-AllNumbered :
    (is_thread : ℕ → Bool) (kept : List StoredItem) (now : ℕ) (a : Adapter)
    → restart is_thread kept now ≡ ok a
    → length kept < 2 ^ 64
    → AllNumbered (length kept) a
unfolding restart
restart-AllNumbered is_thread kept now a h b = elim (Result-cases (read_all is_thread kept)) [
  | inl (e, q) ↦ absurd (ground arith)
  | inr (items, q) ↦
      let same = length-read_all is_thread kept items q in
      let start : Adapter = record { inner = new_inner kept; slots = [] } in
      let made : requeue start items now ≡ a = ground arith in
      let r =
        requeue-AllNumbered items start now 0 (omega (arith, same, b)) (start-AllNumbered kept) in
      subst (AllNumbered (length kept)) made (omega (arith, r.0, same), r.1)
]

past-Rises :
    (items : List Queued) (high target : ℕ)
    → Rises 0 items high
    → is_past items target ≡ true
    → All (λ q. target < q.no) items
unfolding is_past
past-Rises [] high target r h = tt
past-Rises (q ∷ items) high target r h = (
  ltb→lt target q.no h,
  Rises-above target q.no items high (omega (arith, ltb→lt target q.no h)) r.1,
)

-- With fewer items and events than a u64 counts: where the test in `wait_past` lets a wait go that
-- was begun at the last number of the queue, every item of the queue is newer than each one that
-- stood in it when the wait began.
pub wait_past-drained :
    (to_string : Error → String) (settings : ThreadAccessSettings) (is_thread : ℕ → Bool)
    (kept : List StoredItem) (now : ℕ) (a : Adapter) (before after : List Event) (t : ℕ)
    → new to_string settings is_thread (ok kept) now ≡ ok a
    → length kept + length before + length after < 2 ^ 64
    → wait_past (slot (run (run a before) after) t).queue (slot (run a before) t).queue.last_no
      ≡ true
    → let target = (slot (run a before) t).queue.last_no in
      All (λ q. q.no ≤ target) (slot (run a before) t).queue.items
      × All (λ q. target < q.no) (slot (run (run a before) after) t).queue.items
unfolding wait_past
wait_past-drained to_string settings is_thread kept now a before after t made b p =
    let h = (new-restart to_string settings is_thread kept now a made).0 in
    let start = restart-AllNumbered is_thread kept now a h (omega (arith, b)) in
    let mid = run-AllNumbered before a (length kept) (omega (arith, b)) start in
    let last = run-AllNumbered after (run a before) (length kept + length before) b mid in
    let target = (slot (run a before) t).queue.last_no in
    (
      Rises-below 0 (slot (run a before) t).queue.items target (mid.1 t).0,
      past-Rises (slot (run (run a before) after) t).queue.items _ target (last.1 t).0 p,
    )
