-- ===== src/Jobs/Queue/Task/Kept.antt =====
-- Which properties of `pending` the events of the task keep.
use br_jobs_runner_kit.Prelude.{
  ℕ, List, [], ◌∷◌, Option, none, some, inl, inr, Bool-cases, lookup, contains, nat_eq,
}
use br_jobs_runner_kit.Jobs.Queue.Write.{Write, WriteResult, Removal, err, left_unsent}
use br_jobs_runner_kit.Jobs.Queue.Shared.{
  Shared, Entry, Held, Gate, Pending, insert_ordered, remove_ordered, complete, report,
  record_failure, stop_now, hand_over, hold,
}
use br_jobs_runner_kit.Jobs.Queue.Shared.Cases.{hand_over_cases, hold_cases}
use br_jobs_runner_kit.Jobs.Queue.Task.Cases.{popped, next_head_cases, gate_ended_cases}
use br_jobs_runner_kit.Jobs.Queue.Task.{
  Task, Event, Sent, Verdict, done, again, hands_over, holds, stops, turns, gates, outcomes, drops,
  take_head_if, started_head, gate_of, outcome_of, judged, finish_entry, next_head_from, next_head,
  gate_ended, take_items, take_new_held, take_head, gate_branch, outcome_branch, attempt_once,
  complete_all, sort_by_seq, dropped_entries, drop_task, step, run,
}

-- A property that insertions and removals keep.
pub record IsKept {κ} (P : List (ℕ × Pending) → Type κ) : Type κ where
  pub inserts : (k : ℕ) (v : Pending) (m : List (ℕ × Pending)) → P m → P (insert_ordered k v m)
  pub removes : (k : ℕ) (m : List (ℕ × Pending)) → P m → P (remove_ordered k m)

module _ {ℓ κ} {V : Type ℓ} {P : List (ℕ × Pending) → Type κ} (kept : IsKept P) where
  abbrev Has : Shared V → Type κ
  Has s = P s.pending

  hand_over-Has : (s : Shared V) (now : ℕ) (w : Write V) → Has s → Has (hand_over s now w).0
  hand_over-Has s now w h =
      hand_over_cases Has s now w (λ _. h) (λ _ _. kept.inserts s.next_seq _ s.pending h)

  hold-Has :
      (s : Shared V) (now : ℕ) (w : Write V) (follow : Option (Write V))
      → Has s
      → Has (hold s now w follow).0
  hold-Has s now w follow h =
      hold_cases Has s now w follow (λ _. h) (λ _. kept.inserts s.next_seq _ s.pending h)

  complete-Has : (s : Shared V) (e : Entry V) (r : WriteResult) → Has s → Has (complete s e r)
  unfolding complete report
  complete-Has s e r h = kept.removes e.seq s.pending h

  next_head_from-Has :
      (fifo : List (Entry V)) (s : Shared V) → Has s → Has (next_head_from fifo s).0
  next_head_from-Has [] s h = unfold next_head_from in h
  next_head_from-Has (head ∷ rest) s h =
      let go = λ (removal : Removal).
        next_head_from-Has rest (complete (popped s head rest) head (err removal))
          (complete-Has (popped s head rest) head (err removal) h) in
      next_head_cases s head rest (λ r. Has r.0) (λ _. h) (λ removal _ _. go removal) (λ _ _. h)

  gate_ended-Has :
      (s : Shared V) (now : ℕ) (e : Entry V) (follow : Option (Write V)) (gate : Gate)
      → Has s
      → Has (gate_ended s now e follow gate)
  gate_ended-Has s now e follow gate h =
      gate_ended_cases s Has now e follow gate (λ r. complete-Has s e (err r) h) (λ _. h)
        (λ w _. kept.inserts s.next_seq _ s.pending h)

  complete_all-Has : (s : Shared V) (es : List (Entry V)) → Has s → Has (complete_all s es)
  unfolding complete_all
  complete_all-Has s [] h = h
  complete_all-Has s (e ∷ es) h =
      complete_all-Has (complete s e (err left_unsent)) es (complete-Has s e (err left_unsent) h)

  take_items-Has :
      (items : List (Held V)) (t : Task V) → Has t.shared → Has (take_items items t).shared
  unfolding take_items
  take_items-Has [] t h = h
  take_items-Has (item ∷ items) t h = take_items-Has items _ h

  started_head-Has :
      (t : Task V) (r : Shared V × Option (Entry V)) → Has r.0 → Has (started_head t r).shared
  started_head-Has t (s, none) h = h
  started_head-Has t (s, some head) h = h

  take_head-Has : (t : Task V) (o : Option (Entry V)) → Has t.shared → Has (take_head_if t o).shared
  take_head-Has t (some running) h = h
  take_head-Has t none h =
      started_head-Has t (next_head t.shared)
        (unfold next_head in next_head_from-Has t.shared.fifo t.shared h)

  gate_of-Has :
      (t : Task V) (now : ℕ) (gate : Gate) (o : Option (Entry V × Option (Write V)))
      → Has t.shared
      → Has (gate_of t now gate o).shared
  gate_of-Has t now gate none h = h
  gate_of-Has t now gate (some (entry, follow)) h = gate_ended-Has t.shared now entry follow gate h

  finish_entry-Has :
      (t : Task V) (o : Option (Entry V)) (r : WriteResult)
      → Has t.shared
      → Has (finish_entry t o r).shared
  finish_entry-Has t none r h = h
  finish_entry-Has t (some entry) r h = complete-Has t.shared entry r h

  judged-Has :
      (t : Task V) (running : Entry V) (d : Verdict)
      → Has t.shared
      → Has (judged t running d).shared
  unfolding record_failure report
  judged-Has t running (done r) h = finish_entry-Has _ t.entry r h
  judged-Has t running (again e) h = h

  outcome_of-Has :
      (t : Task V) (o : Option (Entry V)) (s : Sent) → Has t.shared → Has (outcome_of t o s).shared
  outcome_of-Has t none s h = h
  outcome_of-Has t (some running) s h = judged-Has t running (attempt_once running.write s) h

  gate_branch-Has :
      (t : Task V) (now seq : ℕ) (gate : Gate)
      → Has t.shared
      → Has (gate_branch t now seq gate).shared
  unfolding gate_branch
  gate_branch-Has t now seq gate h = elim (Bool-cases (contains seq t.gates)) [
    | inl e ↦ rw e (gate_of-Has _ now gate (lookup seq t.held) h)
    | inr e ↦ rw e h
  ]

  take_new_held-Has : (t : Task V) → Has t.shared → Has (take_new_held t).shared
  unfolding take_new_held
  take_new_held-Has t h =
      take_items-Has t.shared.new_held (record t { shared = record (t.shared) { new_held = [] } }) h

  step-Has : (t : Task V) (e : Event V) → Has t.shared → Has (step t e).shared
  unfolding step stop_now take_head outcome_branch drop_task
  step-Has t (hands_over now w) h = hand_over-Has t.shared now w h
  step-Has t (holds now w follow) h = hold-Has t.shared now w follow h
  step-Has t stops h = h
  step-Has t turns h =
      take_head-Has (take_new_held t) (take_new_held t).entry (take_new_held-Has t h)
  step-Has t (gates now seq gate) h = gate_branch-Has t now seq gate h
  step-Has t (outcomes s) h = outcome_of-Has t t.attempt s h
  step-Has t drops h = complete_all-Has _ (sort_by_seq (dropped_entries t)) h

  pub run-Has : (t : Task V) (es : List (Event V)) → Has t.shared → Has (run t es).shared
  unfolding run
  run-Has t [] h = h
  run-Has t (e ∷ es) h = run-Has (step t e) es (step-Has t e h)
