-- ===== src/Threads/Adapter/Recovery.antt =====
-- Crash and restart: what an adapter built on the store of another holds of its items.
use br_jobs_runner_kit.Threads.Adapter.Machine.{new, new-restart, ThreadAccessSettings}
use Prim.Native.String.{String}
use br_jobs_runner_kit.Threads.Adapter.Stored.{Encodes}
use br_jobs_runner_kit.Threads.Queue.{read_item, kept_item}
use br_jobs_runner_kit.Threads.Error.{Error, Result}
use br_jobs_runner_kit.Prelude.{
  ℕ, ◌+◌, ◌≤◌, ◌≡◌, refl, ap, sym, subst, Bool, true, List, [], ◌∷◌, Option, none, some, count,
  arith, inl, inr, ◌∙◌, if_branches, Sub, Sub-refl, All, All-append,
}
use br_jobs_runner_kit.Threads.Error.{Result-cases, ok}
use br_jobs_runner_kit.Threads.Queue.{Item, StoredItem, append, remove_item, read}
use br_jobs_runner_kit.Threads.Adapter.{Slot, Worker, absent, looping, attempting, removing}
use br_jobs_runner_kit.Threads.Adapter.Machine.{
  Adapter, Event, keeps, slot, step, step_on, run, restart, new_inner, read_all, requeue, with_slot,
  drop_adapter, thread_of,
}
use br_jobs_runner_kit.Threads.Adapter.Kept.{kept_of, waiting}
use br_jobs_runner_kit.Threads.Adapter.Durable.{IsKept, kept_later, ids, removed_id}
use br_jobs_runner_kit.Threads.Adapter.Apart.{slot_step-Touches}
use br_jobs_runner_kit.Threads.Adapter.Crash.{ThreadIsKept, step_on-IsKept, run-IsKept}
use br_jobs_runner_kit.Threads.Adapter.Restart.{Rests, is_resting, restart-holds}

resting_removed : (w : Worker) → is_resting w ≡ true → removed_id w ≡ []
resting_removed absent h = refl
resting_removed looping h = refl
resting_removed (attempting q) h = cc
resting_removed (removing q) h = cc

Rests-IsKept :
    (t : ℕ) (kept : List StoredItem) (s : Slot) (later : List ℕ)
    → Rests t (kept_of t kept) s
    → ((k : ℕ) → count k (ids (kept_of t kept)) + count k later ≤ 1)
    → IsKept t kept s.queue.items s.accepting s.worker later
unfolding count
Rests-IsKept t kept s later r once =
    let same : waiting s.queue.items s.accepting ≡ kept_of t kept =
      ap (waiting s.queue.items) r.1 ∙ r.3 in
    record {
      within = subst (λ l. Sub l (kept_of t kept)) (sym same) (Sub-refl (kept_of t kept));
      attempted = λ head e. absurd (ground (arith, r.2, e));
      once = λ k. rw same (rw (resting_removed s.worker r.2) (omega (arith, once k)));
    }

restart-ThreadIsKept :
    (is_thread : ℕ → Bool) (kept : List StoredItem) (now : ℕ) (a : Adapter) (es : List Event)
    (t : ℕ)
    → restart is_thread kept now ≡ ok a
    → ((k : ℕ) → count k (ids (kept_of t kept)) + count k (kept_later t es) ≤ 1)
    → ThreadIsKept a t es
restart-ThreadIsKept is_thread kept now a es t h once =
    let holds = restart-holds is_thread kept now a h in
    let s = slot a t in
    (
      (holds.2 t).0,
      subst (λ l. IsKept s.thread l s.queue.items s.accepting s.worker (kept_later t es))
          (sym holds.1)
          (subst (λ u. IsKept u kept s.queue.items s.accepting s.worker (kept_later t es))
            (sym (holds.2 t).0) (Rests-IsKept t kept s (kept_later t es) (holds.2 t) once)),
    )

-- What stands in the store can be read, under the thread and the id it is kept under.
abbrev pub IsReadable : (ℕ → Bool) → StoredItem → Type 0
IsReadable is_thread s = (item : Item) × (read is_thread s ≡ ok item)

-- The items that the events put into the store name threads.
abbrev pub Names : (ℕ → Bool) → Event → Type 0
Names is_thread (keeps item encoded) = is_thread item.thread ≡ true
Names is_thread e = Unit

remove_item-IsReadable :
    (is_thread : ℕ → Bool) (kept : List StoredItem) (t id : ℕ)
    → All (IsReadable is_thread) kept
    → All (IsReadable is_thread) (remove_item kept t id)
unfolding remove_item
remove_item-IsReadable is_thread [] t id h = tt
remove_item-IsReadable is_thread (s ∷ kept) t id h =
    if_branches (All (IsReadable is_thread)) _ {y = s ∷ remove_item kept t id}
      (λ q. remove_item-IsReadable is_thread kept t id h.1)
      (λ q. (h.0, remove_item-IsReadable is_thread kept t id h.1))

append-IsReadable :
    (is_thread : ℕ → Bool) (kept : List StoredItem) (item : Item) (bytes : Result Item)
    → bytes ≡ ok item
    → is_thread item.thread ≡ true
    → All (IsReadable is_thread) kept
    → All (IsReadable is_thread) (append kept (kept_item bytes item item.thread))
unfolding append read read_item
append-IsReadable is_thread kept item bytes r n h =
    All-append (IsReadable is_thread) kept _ h ((item, rw r ground (arith, n)), tt)

step_on-IsReadable :
    (is_thread : ℕ → Bool) (a : Adapter) (e : Event) (on : Option ℕ)
    → thread_of e ≡ on
    → ((t : ℕ) → (slot a t).thread ≡ t)
    → Encodes e
    → Names is_thread e
    → All (IsReadable is_thread) a.inner.kept
    → All (IsReadable is_thread) (step_on a e on).inner.kept
unfolding step_on drop_adapter with_slot
step_on-IsReadable is_thread a e none q named r n h = h
step_on-IsReadable is_thread a e (some u) q named r n h =
    elim (slot_step-Touches a.inner (slot a u) e).1 [
      | inl p ↦ subst (All (IsReadable is_thread)) (sym p) h
      | inr (inl (item, bytes, f, p)) ↦
          let same : item.thread ≡ (slot a u).thread = ground (arith, f, q, named u) in
          subst (All (IsReadable is_thread)) (sym p) (
            subst (λ v. All (IsReadable is_thread) (append a.inner.kept (kept_item bytes item v)))
              same
              (append-IsReadable is_thread a.inner.kept item bytes (subst Encodes f r bytes refl)
                (subst (Names is_thread) f n) h))
      | inr (inr (id, p)) ↦
          subst (All (IsReadable is_thread)) (sym p)
            (remove_item-IsReadable is_thread a.inner.kept (slot a u).thread id h)
    ]

run-IsReadable :
    (is_thread : ℕ → Bool) (es : List Event) (a : Adapter)
    → ((t : ℕ) → ThreadIsKept a t es)
    → All Encodes es
    → All (Names is_thread) es
    → All (IsReadable is_thread) a.inner.kept
    → All (IsReadable is_thread) (run a es).inner.kept
unfolding run step
run-IsReadable is_thread [] a i r n h = h
run-IsReadable is_thread (e ∷ es) a i r n h =
    run-IsReadable is_thread es (step a e) (λ t. step_on-IsKept a e es (thread_of e) t refl r.0 i)
      r.1 n.1 (step_on-IsReadable is_thread a e (thread_of e) refl (λ t. (i t).0) r.0 n.0 h)

read_all-IsReadable :
    (is_thread : ℕ → Bool) (kept : List StoredItem) (items : List Item)
    → read_all is_thread kept ≡ ok items
    → All (IsReadable is_thread) kept
unfolding read_all
read_all-IsReadable is_thread [] items h = tt
read_all-IsReadable is_thread (s ∷ kept) items h = elim (Result-cases (read is_thread s)) [
  | inl (e, q) ↦ absurd (ground arith)
  | inr (item, q) ↦ elim (Result-cases (read_all is_thread kept)) [
    | inl (e, r) ↦ absurd (ground arith)
    | inr (rest, r) ↦ ((item, q), read_all-IsReadable is_thread kept rest r)
  ]
]

readable-read_all :
    (is_thread : ℕ → Bool) (kept : List StoredItem)
    → All (IsReadable is_thread) kept
    → (items : List Item) × (read_all is_thread kept ≡ ok items)
unfolding read_all
readable-read_all is_thread [] h = ([], refl)
readable-read_all is_thread (s ∷ kept) h =
    let rest = readable-read_all is_thread kept h.1 in (h.0.0 ∷ rest.0, rw h.0.1 (rw rest.1 refl))

restart-readable :
    (is_thread : ℕ → Bool) (kept : List StoredItem) (now : ℕ)
    → All (IsReadable is_thread) kept
    → (b : Adapter) × (restart is_thread kept now ≡ ok b)
unfolding restart
restart-readable is_thread kept now h =
    let all = readable-read_all is_thread kept h in
    (requeue (record { inner = new_inner kept; slots = [] }) all.0 now, rw all.1 refl)

restart-IsReadable :
    (is_thread : ℕ → Bool) (kept : List StoredItem) (now : ℕ) (a : Adapter)
    → restart is_thread kept now ≡ ok a
    → All (IsReadable is_thread) kept
unfolding restart
restart-IsReadable is_thread kept now a h = elim (Result-cases (read_all is_thread kept)) [
  | inl (e, q) ↦ absurd (ground arith)
  | inr (items, q) ↦ read_all-IsReadable is_thread kept items q
]

-- Whatever the calls, the tasks and the store did in an adapter that was built on a store, and
-- whether it was dropped or stopped at any point: if the store lists what is left in it, an adapter
-- built on that with the same settings starts, and its queue of each thread holds, in the same order,
-- all the items that the first one had put into the store and not seen an end of. The bytes that
-- serde_json made of an item must read back as the item, the items must name threads, and the ids
-- of the items of each thread must differ.
pub new-run :
    (to_string : Error → String) (settings : ThreadAccessSettings) (is_thread : ℕ → Bool)
    (kept : List StoredItem) (now later : ℕ) (a : Adapter) (es : List Event) (t : ℕ)
    → new to_string settings is_thread (ok kept) now ≡ ok a
    → All Encodes es
    → All (Names is_thread) es
    → ((u k : ℕ) → count k (ids (kept_of u kept)) + count k (kept_later u es) ≤ 1)
    → let s = slot (run a es) t in
      (b : Adapter) × (new to_string settings is_thread (ok (run a es).inner.kept) later ≡ ok b)
      × Sub (waiting s.queue.items s.accepting) (waiting (slot b t).queue.items none)
new-run to_string settings is_thread kept now later a es t made r n once =
    let started = new-restart to_string settings is_thread kept now a made in
    let h = started.0 in
    let i : (u : ℕ) → ThreadIsKept a u es =
      λ u. restart-ThreadIsKept is_thread kept now a es u h (once u) in
    let again = restart-readable is_thread (run a es).inner.kept later (
      run-IsReadable is_thread es a i r n (
        subst (All (IsReadable is_thread)) (sym (restart-holds is_thread kept now a h).1)
          (restart-IsReadable is_thread kept now a h))) in
    let s = slot (run a es) t in
    let c = run-IsKept es a r i t in
    (
      again.0,
      started.1 (run a es).inner.kept later ∙ again.1,
      subst (Sub (waiting s.queue.items s.accepting))
          (ap (λ u. kept_of u (run a es).inner.kept) c.0
            ∙ sym ((restart-holds is_thread (run a es).inner.kept later again.0 again.1).2 t).3)
          c.1.within,
    )
