-- ===== src/Threads/Adapter/Waits/Entries.antt =====
-- What `entry_stored` tells of an entry, from the acceptance of its item to the item's end.
use br_jobs_runner_kit.Prelude.{◌∙◌}
use br_jobs_runner_kit.Prelude.{
  ℕ, ◌+◌, ◌%◌, ◌^◌, if_branches, ◌≡◌, refl, Bool, true, false, not, ◌&&◌, ◌||◌, List, [], ◌∷◌, ◌++◌,
  none, some, any, nat_eq, contains, contains-remove, remove, arith, if◌then◌else◌,
}
use br_jobs_runner_kit.Threads.Queue.{Item, Queued, QueueInner}
use br_jobs_runner_kit.Threads.Adapter.{
  Inner, Slot, Ended, delivered, is_delivered, end_item, enqueue, remove_all,
}
use br_jobs_runner_kit.Threads.Adapter.Waits.{stored, dropped, entry_stored}

contains-append :
    (k : ℕ) (xs ys : List ℕ) → contains k (xs ++ ys) ≡ (contains k xs || contains k ys)
unfolding contains
contains-append k [] ys = refl
contains-append k (x ∷ xs) ys = ground (arith, contains-append k xs ys)

contains-remove_all :
    (k : ℕ) (xs s : List ℕ) → contains k (remove_all xs s) ≡ (not (contains k xs) && contains k s)
unfolding contains remove_all
contains-remove_all k [] s = refl
contains-remove_all k (x ∷ xs) s =
    ground (arith, contains-remove_all k xs (remove x s), contains-remove k x s)

-- Whether an item waits that holds the entry.
abbrev pub holds : ℕ → List Queued → Bool
holds entry items = any (λ q. contains entry q.item.entries) items

holds-append :
    (entry : ℕ) (items : List Queued) (q : Queued)
    → holds entry (items ++ q ∷ []) ≡ (holds entry items || contains entry q.item.entries)
holds-append entry [] q = ground arith
holds-append entry (p ∷ items) q = ground (arith, holds-append entry items q)

outcome_of :
    (entry : ℕ) (queue : QueueInner) (gone waits : Bool)
    → contains entry queue.dropped ≡ gone
    → holds entry queue.items ≡ waits
    → entry_stored queue entry
      ≡ (if gone then some dropped else if waits then none else some stored)
unfolding entry_stored
outcome_of entry queue gone waits g w = rw g (rw w refl)

pub entry_stored-queued :
    (inner : Inner) (s : Slot) (item : Item) (now entry : ℕ)
    → inner.stopped ≡ false
    → contains entry item.entries ≡ true
    → entry_stored (enqueue inner s item now).1.queue entry ≡ none
unfolding enqueue
entry_stored-queued inner s item now entry run held =
    if_branches (λ (done : Inner × Slot). entry_stored done.1.queue entry ≡ none) inner.stopped
      (λ q. absurd (ground (arith, q, run)))
      (λ q.
        outcome_of entry _ false true
          (ground (arith, contains-remove_all entry item.entries s.queue.dropped))
          (ground (
            arith,
            holds-append entry s.queue.items
                (record { item = item; no = (inner.numbers + 1) % 2 ^ 64; accepted_at = now }),
          )))

dropped_by :
    (how : Ended) (entry : ℕ) (entries gone : List ℕ)
    → contains entry entries ≡ true
    → contains entry (if is_delivered how then gone else entries ++ gone)
      ≡ (not (is_delivered how) || contains entry gone)
dropped_by delivered entry entries gone own = refl
dropped_by how entry entries gone own = ground (arith, contains-append entry entries gone)

outcome_if :
    (gone : Bool) (how : Ended)
    → (if (not (is_delivered how) || gone)
        then some dropped
        else if false
        then none
        else some stored)
      ≡ some (if is_delivered how && not gone then stored else dropped)
outcome_if gone how = ground arith

-- What is told of an entry whose item is queued into a slot of a running adapter, or stands at its
-- head as the only one that holds the entry. Queued, it is waited for, also where an earlier item
-- with it was dropped. At the head it is waited for unless an item with it was dropped since; and
-- when that item ends, the entry is stored exactly if the item was delivered and none with the entry
-- was dropped since, and dropped otherwise.
pub entry_stored-ended :
    (inner : Inner) (s : Slot) (item : Item) (now entry : ℕ) (head : Queued) (rest : List Queued)
    (how : Ended)
    → inner.stopped ≡ false
    → contains entry item.entries ≡ true
    → s.queue.items ≡ head ∷ rest
    → contains entry head.item.entries ≡ true
    → holds entry rest ≡ false
    → (entry_stored (enqueue inner s item now).1.queue entry ≡ none)
      × (entry_stored s.queue entry
          ≡ (if contains entry s.queue.dropped then some dropped else none))
      × (entry_stored (end_item inner s head how).1.queue entry
          ≡ some (
              if is_delivered how && not (contains entry s.queue.dropped) then stored else dropped))
unfolding end_item
entry_stored-ended inner s item now entry head rest how run held front own alone = (
  entry_stored-queued inner s item now entry run held,
  outcome_of entry s.queue (contains entry s.queue.dropped) true refl (ground (arith, front)),
  outcome_of entry (end_item inner s head how).1.queue
        (not (is_delivered how) || contains entry s.queue.dropped) false
        (dropped_by how entry head.item.entries s.queue.dropped own) (ground (arith, front))
      ∙ outcome_if (contains entry s.queue.dropped) how,
)
