-- ===== src/Threads/Adapter/Restart.antt =====
-- An adapter that is built on what another one left in the store.
use br_jobs_runner_kit.Threads.Error.{fail}
use br_jobs_runner_kit.Threads.Error.{Result}
use br_jobs_runner_kit.Threads.Queue.{read_item}
use br_jobs_runner_kit.Prelude.{
  ℕ, ◌≡◌, ◌≢◌, refl, ap, sym, subst, Bool, true, false, List, [], ◌∷◌, ◌++◌, none, arith, inl, inr,
  nat_beq, nat_beq_iff, nat_eq, if◌then◌else◌, if_branches, lookup, Bool-cases, ◌∙◌,
}
use mathlib.Core.List.{append-nil, append_assoc}
use br_jobs_runner_kit.Threads.Error.{Result-cases, ok}
use br_jobs_runner_kit.Threads.Queue.{Item, StoredItem, read, empty_queue}
use br_jobs_runner_kit.Threads.Adapter.{Inner, Slot, new_slot, Worker, absent, looping, enqueue}
use br_jobs_runner_kit.Threads.Adapter.Machine.{
  Adapter, slot, or_new, with_slot, read_all, requeue, restart, new_inner,
}
use br_jobs_runner_kit.Threads.Adapter.Kept.{kept_of, waiting, waiting-some, waiting-append}
use br_jobs_runner_kit.Threads.Adapter.Crash.{slot-with_slot}

abbrev pub is_resting : Worker → Bool
is_resting absent = true
is_resting looping = true
is_resting w = false

-- A slot with nothing but a queue.
abbrev pub Rests : ℕ → List (ℕ × Result Item) → Slot → Type 0
Rests t entries s =
    (s.thread ≡ t)
    × (s.accepting ≡ none)
    × (is_resting s.worker ≡ true)
    × (waiting s.queue.items none ≡ entries)

-- The items of a thread among all.
unfoldable entries_of : ℕ → List Item → List (ℕ × Result Item)
entries_of t [] = []
entries_of t (item ∷ items) =
    if nat_beq item.thread t then (item.id, ok item) ∷ entries_of t items else entries_of t items

enqueue-Rests :
    (inner : Inner) (s : Slot) (item : Item) (now t : ℕ) (entries : List (ℕ × Result Item))
    → inner.stopped ≡ false
    → Rests t entries s
    → ((enqueue inner s item now).0.stopped ≡ false)
      × ((enqueue inner s item now).0.kept ≡ inner.kept)
      × Rests t (entries ++ (item.id, ok item) ∷ []) (enqueue inner s item now).1
unfolding enqueue
enqueue-Rests inner s item now t entries h r = rw h (
  refl,
  refl,
  (
    r.0,
    r.1,
    if_branches (λ (w : Worker). is_resting w ≡ true) s.queue.worker_running (λ q. r.2) (λ q. refl),
    waiting-append s.queue.items _
        ∙ waiting-some s.queue.items item
        ∙ ap (λ l. l ++ (item.id, ok item) ∷ []) r.3,
  ),
)

-- What can be read stands under the thread and the id that it names.
abbrev pub IsOwn : StoredItem → Result Item → Item → Type 0
IsOwn s bytes item = (bytes ≡ ok item) × (item.thread ≡ s.thread) × (item.id ≡ s.id)

read_item-IsOwn :
    (is_thread : ℕ → Bool) (s : StoredItem) (bytes : Result Item) (item : Item)
    → read_item is_thread s bytes ≡ ok item
    → IsOwn s bytes item
unfolding read_item
read_item-IsOwn is_thread s (fail e) item h = absurd (ground arith)
read_item-IsOwn is_thread s (ok own) item h =
    let same : own ≡ item = ground (arith, h) in
    (ap ok same, ground (arith, h, ap (λ i. i.thread) same), ground (arith, h, ap (λ i. i.id) same))

read-IsOwn :
    (is_thread : ℕ → Bool) (s : StoredItem) (item : Item)
    → read is_thread s ≡ ok item
    → IsOwn s s.bytes item
unfolding read
read-IsOwn is_thread s item h = read_item-IsOwn is_thread s s.bytes item h

read_all-entries :
    (is_thread : ℕ → Bool) (kept : List StoredItem) (items : List Item) (t : ℕ)
    → read_all is_thread kept ≡ ok items
    → entries_of t items ≡ kept_of t kept
unfolding read_all kept_of entries_of
read_all-entries is_thread [] [] t h = refl
read_all-entries is_thread [] (item ∷ items) t h = cc
read_all-entries is_thread (s ∷ kept) items t h = elim (Result-cases (read is_thread s)) [
  | inl (e, q) ↦ absurd (ground arith)
  | inr (item, q) ↦ elim (Result-cases (read_all is_thread kept)) [
    | inl (e, r) ↦ absurd (ground arith)
    | inr (rest, r) ↦
        let made : item ∷ rest ≡ items = ground arith in
        ground
          (arith, made, read-IsOwn is_thread s item q, read_all-entries is_thread kept rest t r)
  ]
]

-- What a requeued adapter holds: the store as it was, and in each slot what it held before and
-- behind it the items of the thread.
abbrev pub HoldsAfter : List StoredItem → (ℕ → List (ℕ × Result Item)) → Adapter → Type 0
HoldsAfter kept before a =
    (a.inner.stopped ≡ false) × (a.inner.kept ≡ kept) × ((t : ℕ) → Rests t (before t) (slot a t))

entry_own : (item : Item) → (item.id, ok item) ∷ [] ≡ entries_of item.thread (item ∷ [])
unfolding entries_of
entry_own item = ground arith

entry_other : (item : Item) (t : ℕ) → item.thread ≢ t → [] ≡ entries_of t (item ∷ [])
unfolding entries_of
entry_other item t h = ground arith

entries_of-cons :
    (t : ℕ) (item : Item) (items : List Item)
    → entries_of t (item ∷ []) ++ entries_of t items ≡ entries_of t (item ∷ items)
unfolding entries_of
entries_of-cons t item items = elim (Bool-cases (nat_beq item.thread t)) [
  | inl b ↦ rw b refl
  | inr b ↦ rw b refl
]

start-holds :
    (kept : List StoredItem)
    → HoldsAfter kept (λ t. []) (record { inner = new_inner kept; slots = [] })
unfolding slot or_new new_slot empty_queue waiting new_inner lookup
start-holds kept = (refl, refl, λ t. (refl, refl, refl, refl))

holds_same :
    (kept : List StoredItem) (before after : ℕ → List (ℕ × Result Item)) (a : Adapter)
    → ((t : ℕ) → before t ≡ after t)
    → HoldsAfter kept before a
    → HoldsAfter kept after a
holds_same kept before after a e h =
    (h.0, h.1, λ t. ((h.2 t).0, (h.2 t).1, (h.2 t).2, (h.2 t).3 ∙ e t))

requeue-one :
    (kept : List StoredItem) (before : ℕ → List (ℕ × Result Item)) (a : Adapter) (item : Item)
    (now : ℕ)
    → HoldsAfter kept before a
    → HoldsAfter kept
        (λ t. before t ++ entries_of t (item ∷ []))
        (with_slot a item.thread (enqueue a.inner (slot a item.thread) item now))
unfolding entries_of with_slot
requeue-one kept before a item now h =
    let u = item.thread in
    let done = enqueue a.inner (slot a u) item now in
    let e = enqueue-Rests a.inner (slot a u) item now u (before u) h.0 (h.2 u) in
    (
      e.0,
      e.1 ∙ h.1,
      λ t.
          subst (Rests t (before t ++ entries_of t (item ∷ []))) (sym (slot-with_slot a u done t))
            (elim (Bool-cases (nat_beq t u)) [
              | inl b ↦
                  let p = (nat_beq_iff t u).0 b in
                  rw b (
                    subst (λ v. Rests v (before v ++ entries_of v (item ∷ [])) done.1) (sym p)
                      (subst (λ l. Rests u (before u ++ l) done.1) (entry_own item) e.2))
              | inr b ↦ rw b (
                (h.2 t).0,
                (h.2 t).1,
                (h.2 t).2,
                (h.2 t).3
                    ∙ sym (append-nil (before t))
                    ∙ ap (λ l. before t ++ l)
                        (entry_other item t (λ p. ground (arith, p, nat_beq_iff t u))),
              )
            ]),
    )

requeue-holds :
    (kept : List StoredItem) (items : List Item) (before : ℕ → List (ℕ × Result Item)) (a : Adapter)
    (now : ℕ)
    → HoldsAfter kept before a
    → HoldsAfter kept (λ t. before t ++ entries_of t items) (requeue a items now)
unfolding requeue entries_of
requeue-holds kept [] before a now h =
    holds_same kept before _ a (λ t. sym (append-nil (before t))) h
requeue-holds kept (item ∷ items) before a now h =
    let b = with_slot a item.thread (enqueue a.inner (slot a item.thread) item now) in
    holds_same kept _ _ (requeue b items now)
      (λ t.
        append_assoc (before t) (entries_of t (item ∷ [])) (entries_of t items)
        ∙ ap (λ l. before t ++ l) (entries_of-cons t item items))
      (requeue-holds kept items _ b now (requeue-one kept before a item now h))

pub restart-holds :
    (is_thread : ℕ → Bool) (kept : List StoredItem) (now : ℕ) (a : Adapter)
    → restart is_thread kept now ≡ ok a
    → HoldsAfter kept (λ t. kept_of t kept) a
unfolding restart
restart-holds is_thread kept now a h = elim (Result-cases (read_all is_thread kept)) [
  | inl (e, q) ↦ absurd (ground arith)
  | inr (items, q) ↦
      let made : requeue (record { inner = new_inner kept; slots = [] }) items now ≡ a =
        ground arith in
      holds_same kept _ _ a (λ t. read_all-entries is_thread kept items t q)
        (subst (HoldsAfter kept (λ t. entries_of t items)) made (
          requeue-holds kept items (λ t. []) (record { inner = new_inner kept; slots = [] }) now
            (start-holds kept)))
]
