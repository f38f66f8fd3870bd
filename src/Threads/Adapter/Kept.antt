-- ===== src/Threads/Adapter/Kept.antt =====
-- The part of the store and of a slot that belongs to one thread.
use br_jobs_runner_kit.Threads.Error.{Result, ok}
use br_jobs_runner_kit.Prelude.{
  ℕ, ◌≡◌, refl, ap, List, [], ◌∷◌, ◌++◌, Option, none, some, map, count, arith, inl, inr, nat_beq,
  if◌then◌else◌, if_branches, Sub,
}
use br_jobs_runner_kit.Threads.Queue.{Item, StoredItem, kept_item, append, remove_item, Queued}

-- What the store keeps for a thread: the items under their ids, in order.
unfoldable pub kept_of : ℕ → List StoredItem → List (ℕ × Result Item)
kept_of thread [] = []
kept_of thread (s ∷ kept) =
    if nat_beq s.thread thread then (s.id, s.bytes) ∷ kept_of thread kept else kept_of thread kept

-- What waits in a slot: the queue, and behind it the item that is not in the queue yet.
unfoldable pub waiting : List Queued → Option Item → List (ℕ × Result Item)
waiting [] none = []
waiting [] (some item) = (item.id, ok item) ∷ []
waiting (q ∷ items) accepting = (q.item.id, ok q.item) ∷ waiting items accepting

-- A list without an id.
unfoldable pub without : ℕ → List (ℕ × Result Item) → List (ℕ × Result Item)
without id [] = []
without id ((j, item) ∷ items) =
    if nat_beq j id then without id items else (j, item) ∷ without id items

pub waiting-some :
    (items : List Queued) (item : Item)
    → waiting items (some item) ≡ waiting items none ++ (item.id, ok item) ∷ []
unfolding waiting
waiting-some [] item = refl
waiting-some (q ∷ items) item = ap (◌∷◌ (q.item.id, ok q.item)) (waiting-some items item)

pub waiting-append :
    (items : List Queued) (q : Queued)
    → waiting (items ++ q ∷ []) none ≡ waiting items (some q.item)
unfolding waiting
waiting-append [] q = refl
waiting-append (p ∷ items) q = ap (◌∷◌ (p.item.id, ok p.item)) (waiting-append items q)

pub kept_of-append :
    (thread u : ℕ) (kept : List StoredItem) (item : Item) (bytes : Result Item)
    → kept_of thread (append kept (kept_item bytes item u)) ≡ (
        if nat_beq u thread
        then kept_of thread kept ++ (item.id, bytes) ∷ []
        else kept_of thread kept)
unfolding kept_of append
kept_of-append thread u [] item bytes = ground arith
kept_of-append thread u (s ∷ kept) item bytes =
    ground (arith, kept_of-append thread u kept item bytes)

pub kept_of-remove_item :
    (thread u id : ℕ) (kept : List StoredItem)
    → kept_of thread (remove_item kept u id)
      ≡ (if nat_beq u thread then without id (kept_of thread kept) else kept_of thread kept)
unfolding kept_of remove_item without
kept_of-remove_item thread u id [] = ground arith
kept_of-remove_item thread u id (s ∷ kept) = ground (arith, kept_of-remove_item thread u id kept)

-- What does not hold the id stays within.
pub without-Sub :
    (id : ℕ) (xs ys : List (ℕ × Result Item))
    → count id (map (λ p. p.0) xs) ≡ 0
    → Sub xs ys
    → Sub xs (without id ys)
unfolding without count
without-Sub id [] ys c h = tt
without-Sub id (x ∷ xs) [] c h = cc
without-Sub id ((k, it) ∷ xs) ((j, item) ∷ ys) c (inl h) =
    if_branches (Sub ((k, it) ∷ xs)) (nat_beq j id)
      (λ e. absurd (ground (arith, ap (λ p. p.0) h.0)))
      λ e. inl (h.0, without-Sub id xs ys (ground arith) h.1)
without-Sub id (x ∷ xs) ((j, item) ∷ ys) c (inr h) =
    if_branches (Sub (x ∷ xs)) (nat_beq j id) (λ e. without-Sub id (x ∷ xs) ys c h)
      λ e. inr (without-Sub id (x ∷ xs) ys c h)
