-- ===== src/Threads/Adapter/Durable.antt =====
-- What the store keeps of the items that a slot holds, one event of the slot at a time.
use br_jobs_runner_kit.Threads.Error.{Result, ok}
use br_jobs_runner_kit.Prelude.{
  ◌⊎◌, ℕ, ◌+◌, ◌≤◌, ◌≡◌, sym, subst, List, [], ◌∷◌, ◌++◌, Option, none, some, map, count, one_if,
  arith, inl, inr, nat_beq, if◌then◌else◌, Sub, Sub-tail, Sub-init, Sub-append, ◌∙◌, ◌⊎◌,
  count-map_append,
}
use br_jobs_runner_kit.Threads.Queue.{Item, StoredItem, kept_item, append, remove_item, Queued}
use br_jobs_runner_kit.Threads.Adapter.{
  ok, Result, Worker, looping, attempting, removing, pop_front,
}
use br_jobs_runner_kit.Threads.Adapter.Machine.{Event, keeps}
use br_jobs_runner_kit.Threads.Adapter.Kept.{
  kept_of, waiting, waiting-some, waiting-append, kept_of-append, kept_of-remove_item, without-Sub,
}

-- The ids of the items that the events hand to the store for a thread.
unfoldable pub kept_later : ℕ → List Event → List ℕ
kept_later thread [] = []
kept_later thread (keeps item encoded ∷ es) =
    if nat_beq item.thread thread then item.id ∷ kept_later thread es else kept_later thread es
kept_later thread (e ∷ es) = kept_later thread es

abbrev pub removed_id : Worker → List ℕ
removed_id (removing q) = q.item.id ∷ []
removed_id w = []

abbrev pub head_of : List Queued → Option Queued
head_of [] = none
head_of (q ∷ items) = some q

abbrev pub ids : List (ℕ × Result Item) → List ℕ
ids = map λ p. p.0

-- The parts of a slot against the store: what waits stands in the store, in order; an attempt is of
-- the head of the queue; and no id stands twice among what waits, what is being removed, and what
-- is still to come.
pub record IsKept (t : ℕ) (kept : List StoredItem) (items : List Queued) (accepting : Option Item)
    (worker : Worker) (later : List ℕ) : Type 0 where
  pub within : Sub (waiting items accepting) (kept_of t kept)
  pub attempted : (head : Queued) → worker ≡ attempting head → head_of items ≡ some head
  pub once :
      (k : ℕ)
      → count k (ids (waiting items accepting)) + count k (removed_id worker) + count k later ≤ 1

count-waiting_some :
    (k : ℕ) (items : List Queued) (item : Item)
    → count k (ids (waiting items (some item)))
      ≡ count k (ids (waiting items none)) + one_if k item.id
unfolding count
count-waiting_some k items item =
    rw (waiting-some items item)
      (ground (arith, count-map_append k (λ p. p.0) (waiting items none) ((item.id, ok item) ∷ [])))

head_of-append :
    (items : List Queued) (q head : Queued)
    → head_of items ≡ some head
    → head_of (items ++ q ∷ []) ≡ some head
head_of-append [] q head h = cc
head_of-append (p ∷ items) q head h = h

module _ (t : ℕ) (kept : List StoredItem) (items : List Queued) (later : List ℕ) where
  pub keep_step :
      (item : Item) (bytes : Result Item) (w : Worker)
      → bytes ≡ ok item
      → IsKept t kept items none w (item.id ∷ later)
      → IsKept t (append kept (kept_item bytes item t)) items (some item) w later
  unfolding count
  keep_step item bytes w e i = record {
    within = rw (waiting-some items item) (
        subst (Sub (waiting items none ++ (item.id, ok item) ∷ []))
          (sym (ground (arith, e, kept_of-append t t kept item bytes)))
          (Sub-append (waiting items none) (kept_of t kept) ((item.id, ok item) ∷ []) i.within));
    attempted = i.attempted;
    once = λ k. omega (arith, i.once k, count-waiting_some k items item);
  }

  pub later_step :
      (id : ℕ) (acc : Option Item) (w : Worker)
      → IsKept t kept items acc w (id ∷ later)
      → IsKept t kept items acc w later
  unfolding count
  later_step id acc w i = record {
    within = i.within;
    attempted = i.attempted;
    once = λ k. omega (arith, i.once k);
  }

  pub queue_step :
      (q : Queued) (w w' : Worker)
      → IsKept t kept items (some q.item) w later
      → (w' ≡ w) ⊎ (w' ≡ looping)
      → IsKept t kept (items ++ q ∷ []) none w' later
  unfolding count
  queue_step q w w' i h = record {
    within = rw (waiting-append items q) i.within;
    attempted = elim h [
      | inl e ↦ λ head a. head_of-append items q head (i.attempted head (sym e ∙ a))
      | inr e ↦ λ head a. cc
    ];
    once = λ k.
        rw (waiting-append items q)
          (elim h [ inl e ↦ rw e (i.once k) | inr e ↦ rw e (omega (arith, i.once k)) ]);
  }

  pub unqueue_step :
      (item : Item) (w : Worker)
      → IsKept t kept items (some item) w later
      → IsKept t kept items none w later
  unqueue_step item w i = record {
    within =
        Sub-init (waiting items none) ((item.id, ok item) ∷ []) (kept_of t kept)
          (rw⁻¹ (waiting-some items item) i.within);
    attempted = i.attempted;
    once = λ k. omega (arith, i.once k, count-waiting_some k items item);
  }

  pub remove_step :
      (acc : Option Item) (head : Queued)
      → IsKept t kept items acc (removing head) later
      → IsKept t (remove_item kept t head.item.id) items acc looping later
  unfolding count
  remove_step acc head i = record {
    within =
        subst (Sub (waiting items acc))
          (sym (ground (arith, kept_of-remove_item t t head.item.id kept)))
          (without-Sub head.item.id (waiting items acc) (kept_of t kept)
            (ground (arith, i.once head.item.id)) i.within);
    attempted = λ q e. cc;
    once = λ k. omega (arith, i.once k);
  }

  pub turn_step :
      (acc : Option Item) (w w' : Worker)
      → IsKept t kept items acc w later
      → ((head : Queued) → w' ≡ attempting head → head_of items ≡ some head)
      → removed_id w' ≡ []
      → IsKept t kept items acc w' later
  unfolding count
  turn_step acc w w' i h e = record {
    within = i.within;
    attempted = h;
    once = λ k. rw e omega (arith, i.once k);
  }

pub pop_step :
    (t : ℕ) (kept : List StoredItem) (items : List Queued) (later : List ℕ) (acc : Option Item)
    (head : Queued) (w : Worker)
    → IsKept t kept items acc w later
    → head_of items ≡ some head
    → IsKept t kept (pop_front items) acc (removing head) later
unfolding waiting count
pop_step t kept [] later acc head w i h = cc
pop_step t kept (q ∷ rest) later acc head w i h = record {
  within = Sub-tail (q.item.id, ok q.item) (waiting rest acc) (kept_of t kept) i.within;
  attempted = λ p e. cc;
  once = λ k. ground (arith, i.once k);
}
