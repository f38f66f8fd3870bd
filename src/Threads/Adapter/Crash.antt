-- ===== src/Threads/Adapter/Crash.antt =====
-- What a crash leaves of an adapter, and what an adapter built on it holds.
use br_jobs_runner_kit.Prelude.{
  All, ℕ, ◌≡◌, ◌≢◌, refl, ap, sym, subst, true, false, List, [], ◌∷◌, Option, none, some, arith,
  inl, inr, nat_beq, nat_beq_iff, nat_eq, if◌then◌else◌, if_branches, lookup, lookup-put, Sub,
  Bool-cases, ◌∙◌,
}
use br_jobs_runner_kit.Threads.Queue.{Item, StoredItem, Queued}
use br_jobs_runner_kit.Threads.Adapter.{Inner, Slot, new_slot, Worker, absent}
use br_jobs_runner_kit.Threads.Adapter.Machine.{
  Adapter, Event, keeps, queues, loops, answers, removes, drops, slot, with_slot, slot_step, step,
  run, drop_adapter, abort_all, thread_of, or_new, step_on,
}
use br_jobs_runner_kit.Threads.Adapter.Kept.{kept_of, waiting}
use br_jobs_runner_kit.Threads.Adapter.Durable.{IsKept, kept_later, turn_step}
use br_jobs_runner_kit.Threads.Adapter.Stored.{Encodes, SlotIsKept, DoneIsKept, slot_step-IsKept}
use br_jobs_runner_kit.Threads.Adapter.Apart.{slot_step-leaves, slot_step-Touches}

pub slot-with_slot :
    (a : Adapter) (u : ℕ) (done : Inner × Slot) (t : ℕ)
    → slot (with_slot a u done) t ≡ (if nat_beq t u then done.1 else slot a t)
unfolding slot with_slot
slot-with_slot a u done t = elim (Bool-cases (nat_beq t u)) [
  | inl e ↦ ground (arith, lookup-put t u done.1 a.slots)
  | inr e ↦ ground (arith, lookup-put t u done.1 a.slots)
]

-- A slot of a thread against the store, with the ids that are still to come.
abbrev pub KeptAs : ℕ → Inner → List ℕ → Slot → Type 0
KeptAs t inner later s = (s.thread ≡ t) × SlotIsKept inner s later

abbrev pub ThreadIsKept : Adapter → ℕ → List Event → Type 0
ThreadIsKept a t es = KeptAs t a.inner (kept_later t es) (slot a t)

IsKept-apart :
    (t : ℕ) (kept kept' : List StoredItem) (items : List Queued) (acc : Option Item) (w : Worker)
    (later : List ℕ)
    → kept_of t kept' ≡ kept_of t kept
    → IsKept t kept items acc w later
    → IsKept t kept' items acc w later
IsKept-apart t kept kept' items acc w later e i = record {
  within = subst (Sub (waiting items acc)) (sym e) i.within;
  attempted = i.attempted;
  once = i.once;
}

kept_later-other :
    (t : ℕ) (e : Event) (es : List Event)
    → thread_of e ≢ some t
    → kept_later t (e ∷ es) ≡ kept_later t es
unfolding kept_later
kept_later-other t (keeps item encoded) es d =
    if_branches (λ (later : List ℕ). later ≡ kept_later t es) (nat_beq item.thread t)
      (λ q. absurd (d (ap some ((nat_beq_iff item.thread t).0 q)))) (λ q. refl)
kept_later-other t (queues v now) es d = refl
kept_later-other t (loops v) es d = refl
kept_later-other t (answers v a) es d = refl
kept_later-other t (removes v e) es d = refl
kept_later-other t drops es d = refl

pub or_new-abort_all :
    (slots : List (ℕ × Slot)) (t : ℕ)
    → or_new t (lookup t (abort_all slots))
      ≡ (record (or_new t (lookup t slots)) { worker = absent })
unfolding lookup abort_all or_new new_slot
or_new-abort_all [] t = refl
or_new-abort_all ((u, s) ∷ slots) t =
    elim (nat_beq t u)
      as (λ b.
        or_new t (if b then some (record s { worker = absent }) else lookup t (abort_all slots))
        ≡ (record (or_new t (if b then some s else lookup t slots)) { worker = absent })) [
          | true ↦ refl
          | false ↦ or_new-abort_all slots t
        ]

own_step :
    (a : Adapter) (e : Event) (es : List Event) (u : ℕ)
    → thread_of e ≡ some u
    → Encodes e
    → ThreadIsKept a u (e ∷ es)
    → KeptAs u
        (slot_step a.inner (slot a u) e).0
        (kept_later u es)
        (slot_step a.inner (slot a u) e).1
own_step a e es u q n i =
    let s = slot a u in
    (
      (slot_step-Touches a.inner s e).0 ∙ i.0,
      subst (λ v. DoneIsKept (slot_step a.inner s e) (kept_later v es)) i.0
          (slot_step-IsKept a.inner s e es (q ∙ ap some (sym i.0)) n
            (subst (λ v. SlotIsKept a.inner s (kept_later v (e ∷ es))) (sym i.0) i.1)),
    )

other_step :
    (a : Adapter) (e : Event) (es : List Event) (u t : ℕ)
    → thread_of e ≡ some u
    → u ≢ t
    → (slot a u).thread ≡ u
    → ThreadIsKept a t (e ∷ es)
    → KeptAs t (slot_step a.inner (slot a u) e).0 (kept_later t es) (slot a t)
other_step a e es u t q d n i =
    let s = slot a t in
    (
      i.0,
      IsKept-apart s.thread a.inner.kept (slot_step a.inner (slot a u) e).0.kept s.queue.items
          s.accepting s.worker (kept_later t es)
          (slot_step-leaves s.thread a.inner (slot a u) e (λ p. d (sym n ∙ p ∙ i.0)))
          (subst (SlotIsKept a.inner s) (kept_later-other t e es (λ p. d (ground arith))) i.1),
    )

pub step_on-IsKept :
    (a : Adapter) (e : Event) (es : List Event) (on : Option ℕ) (t : ℕ)
    → thread_of e ≡ on
    → Encodes e
    → ((u : ℕ) → ThreadIsKept a u (e ∷ es))
    → ThreadIsKept (step_on a e on) t es
unfolding step_on drop_adapter slot
step_on-IsKept a e es none t q n i =
    subst (KeptAs t (drop_adapter a).inner (kept_later t es)) (sym (or_new-abort_all a.slots t)) (
      (i t).0,
      turn_step (slot a t).thread a.inner.kept (slot a t).queue.items (kept_later t es)
          (slot a t).accepting (slot a t).worker absent
          (subst (λ later. SlotIsKept a.inner (slot a t) later) (kept_later-other t e es (λ d. cc))
            (i t).1)
          (λ p r. cc) refl,
    )
step_on-IsKept a e es (some u) t q n i =
    let done = slot_step a.inner (slot a u) e in
    subst (KeptAs t done.0 (kept_later t es)) (sym (slot-with_slot a u done t))
      (elim (Bool-cases (nat_beq t u)) [
        | inl b ↦ rw b (
            subst (λ v. KeptAs v done.0 (kept_later v es) done.1) (sym ((nat_beq_iff t u).0 b))
              (own_step a e es u q n (i u)))
        | inr b ↦
            rw b (other_step a e es u t q (λ p. ground (arith, p, nat_beq_iff t u)) (i u).0 (i t))
      ])

pub run-IsKept :
    (es : List Event) (a : Adapter)
    → All Encodes es
    → ((t : ℕ) → ThreadIsKept a t es)
    → (t : ℕ) → ThreadIsKept (run a es) t []
unfolding run step
run-IsKept [] a n i t = i t
run-IsKept (e ∷ es) a n i t =
    run-IsKept es (step a e) n.1 (λ u. step_on-IsKept a e es (thread_of e) u refl n.0 i) t
