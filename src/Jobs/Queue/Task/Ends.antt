-- ===== src/Jobs/Queue/Task/Ends.antt =====
-- What the accounts promise to the holder of a write's end.
use br_jobs_runner_kit.Prelude.{one_if}
use br_jobs_runner_kit.Jobs.Queue.Task.Pending.{Increasing}
use br_jobs_runner_kit.Jobs.Queue.Write.{WriteResult}
use br_jobs_runner_kit.Jobs.Queue.Shared.Accounts.{count-remove_ordered}
use br_jobs_runner_kit.Jobs.Queue.Shared.{settle, remove_ordered}
use br_jobs_runner_kit.Prelude.{Option, some, Bool-cases, inl, inr, nat_beq, nat_beq_iff, nat_eq}
use br_jobs_runner_kit.Prelude.{
  ap, ℕ, ◌+◌, ◌<◌, ◌≡◌, refl, true, false, List, [], ◌∷◌, none, arith, keys, count, ltb,
  if◌then◌else◌,
}
use br_jobs_runner_kit.Jobs.Queue.Write.{err, left_unsent}
use br_jobs_runner_kit.Jobs.Queue.Shared.{Entry, complete, report, waits, Shared, Pending}
use br_jobs_runner_kit.Jobs.Queue.Shared
use br_jobs_runner_kit.Jobs.Queue.Shared.Accounts.{seqs, held_seqs, below}
use br_jobs_runner_kit.Jobs.Queue.Task.Kept.{run-Has}
use br_jobs_runner_kit.Jobs.Queue.Task.Pending.{Increasing-IsKept, waits-count}
use br_jobs_runner_kit.Jobs.Queue.Shared.{stop_now}
use br_jobs_runner_kit.Prelude.{contains}
use br_jobs_runner_kit.Jobs.Queue.Shared.Cases.{hand_over_cases, hold_cases}
use br_jobs_runner_kit.Jobs.Queue.Task.{
  take_new_held, take_head, gate_branch, outcome_branch, hands_over, holds, stops, turns, gates,
  outcomes, complete_all, sort_by_seq, dropped_entries, Task, Event, new, step, run, drops,
  drop_task, listed,
}
use br_jobs_runner_kit.Jobs.Queue.Task.Conserved.{Inv, run-Inv, step-Inv}

no_keys : (m : List (ℕ × Pending)) → ((k : ℕ) → count k (keys m) ≡ 0) → m ≡ []
unfolding count
no_keys [] h = refl
no_keys ((k, p) ∷ m) h = ground (arith, h k)

module _ {ℓ} {V : Type ℓ} where
  -- The queue as `DeliveryQueue::start` makes it.
  abbrev pub fresh : Task V
  fresh = new Shared.new

  fresh-Inv : Inv fresh
  unfolding new Shared.new count
  fresh-Inv = record {
    accounts = λ k. record { placed = ground arith; pends = ground arith };
    keyed = tt;
    sends = refl;
  }

  -- Whatever happens to a queue, in whatever order: a number that was given out to a write stands
  -- in exactly one place (the queue, the writes not yet taken up, those held at a gate, the one
  -- being sent) or has ended exactly once, it is pending exactly until it ends, and a number not
  -- given out stands nowhere.
  pub run-one_place :
      (es : List (Event V)) (k : ℕ)
      → let t = run fresh es in
        (count k (seqs t.shared.fifo)
            + count k (held_seqs t.shared.new_held)
            + (count k (keys t.held) + count k (seqs (listed t.entry)))
            + count k (keys t.shared.ends)
          ≡ (if ltb k t.shared.next_seq then 1 else 0))
        × (count k (keys t.shared.pending) + count k (keys t.shared.ends)
            ≡ (if ltb k t.shared.next_seq then 1 else 0))
  run-one_place es k =
      let v = run-Inv fresh es fresh-Inv in ((v.accounts k).placed, (v.accounts k).pends)

  -- A task that was dropped: nothing stands anywhere, and nothing more is taken up.
  record IsDropped (t : Task V) : Type ℓ where
    stopped : t.shared.stopped ≡ true
    fifo : t.shared.fifo ≡ []
    new_held : t.shared.new_held ≡ []
    gates : t.gates ≡ []
    held : t.held ≡ []
    entry : t.entry ≡ none
    attempt : t.attempt ≡ none

  complete_all-fields :
      (s : Shared V) (es : List (Entry V))
      → let s' = complete_all s es in
        (s'.stopped ≡ s.stopped) × (s'.fifo ≡ s.fifo) × (s'.new_held ≡ s.new_held)
  unfolding complete_all complete report
  complete_all-fields s [] = (refl, refl, refl)
  complete_all-fields s (e ∷ es) = complete_all-fields (complete s e (err left_unsent)) es

  drop_task-IsDropped : (t : Task V) → IsDropped (drop_task t)
  unfolding drop_task
  drop_task-IsDropped t =
      let (stopped, fifo, new_held) =
        complete_all-fields (record (t.shared) { stopped = true; fifo = []; new_held = [] })
          (sort_by_seq (dropped_entries t)) in
      record {
        stopped = stopped;
        fifo = fifo;
        new_held = new_held;
        gates = refl;
        held = refl;
        entry = refl;
        attempt = refl;
      }

  step-IsDropped : (t : Task V) (e : Event V) → IsDropped t → IsDropped (step t e)
  unfolding step stop_now take_new_held take_head gate_branch outcome_branch contains
  step-IsDropped t (hands_over now w) d =
      hand_over_cases (λ s. IsDropped (record t { shared = s })) t.shared now w (λ _. ground arith)
        (λ on _. absurd (cc))
  step-IsDropped t (holds now w follow) d =
      hold_cases (λ s. IsDropped (record t { shared = s })) t.shared now w follow
        (λ _. ground arith) (λ on. absurd (cc))
  step-IsDropped t stops d = ground arith
  step-IsDropped t turns d = ground arith
  step-IsDropped t (gates now seq gate) d = ground arith
  step-IsDropped t (outcomes s) d = ground arith
  step-IsDropped t drops d = drop_task-IsDropped t

  run-IsDropped : (t : Task V) (es : List (Event V)) → IsDropped t → IsDropped (run t es)
  unfolding run
  run-IsDropped t [] d = d
  run-IsDropped t (e ∷ es) d = run-IsDropped (step t e) es (step-IsDropped t e d)

  ended_once :
      (t : Task V) (k : ℕ)
      → Inv t
      → IsDropped t
      → (count k (keys t.shared.ends) ≡ below k t.shared.next_seq)
        × (count k (keys t.shared.pending) ≡ 0)
  unfolding count
  ended_once t k v d =
      let ended : count k (keys t.shared.ends) ≡ below k t.shared.next_seq = omega (
        arith,
        v.accounts k,
        ap (λ l. count k (seqs l)) d.fifo,
        ap (λ l. count k (held_seqs l)) d.new_held,
        ap (λ l. count k (keys l)) d.held,
        ap (λ o. count k (seqs (listed o))) d.entry,
      ) in
      (ended, omega (arith, v.accounts k, ended))

  -- Once the task is dropped, at whatever point of whatever history, and whatever is called after
  -- that: every number that was given out has ended exactly once, no other has, and no write is
  -- pending.
  pub drops-all_ended :
      (es later : List (Event V)) (k : ℕ)
      → let t = run (step (run fresh es) drops) later in
        (count k (keys t.shared.ends) ≡ (if ltb k t.shared.next_seq then 1 else 0))
        × (t.shared.pending ≡ [])
  drops-all_ended es later k =
      let u = step (run fresh es) drops in
      let t = run u later in
      let v = run-Inv u later (step-Inv (run fresh es) drops (run-Inv fresh es fresh-Inv)) in
      let d = run-IsDropped u later (unfold step in drop_task-IsDropped (run fresh es)) in
      ((ended_once t k v d).0, no_keys t.shared.pending (λ j. (ended_once t j v d).1))

  -- The calls of `complete` that a step of the task has behind it, one after the other.
  abbrev pub completed : Shared V → List (Entry V × WriteResult) → Shared V
  completed s [] = s
  completed s ((entry, result) ∷ calls) = completed (complete s entry result) calls

  -- Each write is pending when its `complete` begins.
  abbrev pub ArePending : Shared V → List (Entry V × WriteResult) → Type 0
  ArePending s [] = Unit
  ArePending s ((entry, result) ∷ calls) =
      (count entry.seq (keys s.pending) ≡ 1) × ArePending (complete s entry result) calls

  -- The shared state that `drained` may find: between the steps of the task, or, where a write is
  -- given, within the `complete` of that write with that result, before it sends the end.
  abbrev pub seen : Shared V → Option (Entry V × WriteResult) → Shared V
  seen s none = s
  seen s (some (entry, result)) = settle s entry result

  -- The write is pending when its `complete` begins.
  abbrev pub WasPending : Shared V → Option (Entry V × WriteResult) → Type 0
  WasPending s none = Unit
  WasPending s (some (entry, result)) = count entry.seq (keys s.pending) ≡ 1

  -- One for the write whose end is to be sent next.
  abbrev pub sending : ℕ → Option (Entry V × WriteResult) → ℕ
  sending k none = 0
  sending k (some (entry, result)) = one_if k entry.seq

  seen-drained :
      (s : Shared V) (window : Option (Entry V × WriteResult)) (upto k given : ℕ)
      → WasPending s window
      → Increasing s.pending
      → count k (keys s.pending) + count k (keys s.ends) ≡ given
      → waits (seen s window).pending upto ≡ false
      → k < upto
      → count k (keys (seen s window).ends) + sending k window ≡ given
  seen-drained s none upto k given p increasing all w lt =
      omega (arith, waits-count k upto s.pending increasing w lt, all)
  seen-drained s (some (entry, result)) upto k given p increasing all w lt =
      let gone =
        waits-count k upto (remove_ordered entry.seq s.pending)
          (Increasing-IsKept.removes entry.seq s.pending increasing) w lt in
      let left = count-remove_ordered k entry.seq s.pending in
      elim (Bool-cases (nat_beq k entry.seq)) [
        | inl q ↦ ground (arith, q, (nat_beq_iff k entry.seq).0 q, p, all, gone, left)
        | inr q ↦ ground (arith, q, all, gone, left)
      ]

  complete-pends :
      (s : Shared V) (entry : Entry V) (result : WriteResult) (k given : ℕ)
      → count entry.seq (keys s.pending) ≡ 1
      → count k (keys s.pending) + count k (keys s.ends) ≡ given
      → count k (keys (complete s entry result).pending)
          + count k (keys (complete s entry result).ends)
        ≡ given
  unfolding complete count
  complete-pends s entry result k given p all =
      let left = count-remove_ordered k entry.seq s.pending in
      elim (Bool-cases (nat_beq k entry.seq)) [
        | inl q ↦ ground (arith, q, (nat_beq_iff k entry.seq).0 q, p, all, left)
        | inr q ↦ ground (arith, q, all, left)
      ]

  completed-drained :
      (s : Shared V) (calls : List (Entry V × WriteResult))
      (window : Option (Entry V × WriteResult)) (upto k given : ℕ)
      → ArePending s calls
      → WasPending (completed s calls) window
      → Increasing s.pending
      → count k (keys s.pending) + count k (keys s.ends) ≡ given
      → waits (seen (completed s calls) window).pending upto ≡ false
      → k < upto
      → count k (keys (seen (completed s calls) window).ends) + sending k window ≡ given
  completed-drained s [] window upto k given a p increasing all w lt =
      seen-drained s window upto k given p increasing all w lt
  completed-drained s ((entry, result) ∷ calls) window upto k given a p increasing all w lt =
      completed-drained (complete s entry result) calls window upto k given a.1 p
        (unfold complete in Increasing-IsKept.removes entry.seq s.pending increasing)
        (complete-pends s entry result k given a.0 all) w lt

  -- What the wait in `drained` means when its test lets it go, be it between two steps of the task,
  -- between two calls of `complete` in one step, or within a `complete` that has given back the lock
  -- and not yet sent its end: of the writes numbered below `upto`, each that was given
  -- out has ended exactly once, or is the one that this `complete` sends the end of next. Each
  -- `complete` is of a pending write.
  pub waits-drained :
      (es : List (Event V)) (calls : List (Entry V × WriteResult))
      (window : Option (Entry V × WriteResult)) (upto k : ℕ)
      → ArePending (run fresh es).shared calls
      → WasPending (completed (run fresh es).shared calls) window
      → waits (seen (completed (run fresh es).shared calls) window).pending upto ≡ false
      → k < upto
      → count k (keys (seen (completed (run fresh es).shared calls) window).ends) + sending k window
        ≡ (if ltb k (run fresh es).shared.next_seq then 1 else 0)
  waits-drained es calls window upto k a p w lt =
      completed-drained (run fresh es).shared calls window upto k _ a p
        (run-Has Increasing-IsKept fresh es (unfold new Shared.new in tt))
        ((run-Inv fresh es fresh-Inv).accounts k).pends w lt
