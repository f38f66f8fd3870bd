-- ===== src/Jobs/Queue/Task.antt =====
-- crates/br-runner-jobs/src/queue/task.rs: the task that sends the writes. What the runtime chooses
-- is an event: the outcome of a send, the end of a gate, the drop of the task. A future that still
-- runs is what it will work on: `attempt` the entry that it sends, `gates` the numbers it waits for.

pub mod Cases
pub mod Accounts
pub mod Conserved
pub mod Kept
pub mod Pending
pub mod Ends
pub mod Attempts
use br_jobs_runner_kit.Prelude.{
  ℕ, Bool, true, false, List, [], ◌∷◌, ◌++◌, map, Option, none, some, leb, lookup, delete, put,
  contains, remove, nat_eq, if◌then◌else◌,
}
use br_jobs_runner_kit.Jobs.Error.{
  Error, CredentialKind, fetch_failed, no_usable, credential, unavailable, lost, refused,
  unreadable, wait_error,
}
use br_jobs_runner_kit.Jobs.Reason.{RefusalReason, instance_unknown}
use br_jobs_runner_kit.Jobs.Reason
use br_jobs_runner_kit.Jobs.Queue.Write.{
  Write, Removal, WriteResult, ok, err, name, left_unsent, depends_on_removed,
}
use br_jobs_runner_kit.Jobs.Queue.Deps.{blocked}
use br_jobs_runner_kit.Jobs.Queue.Shared.{
  Shared, Entry, Held, Gate, stored, dropped, register, complete, record_failure, hand_over, hold,
  stop_now,
}

abbrev is_fetch_failed : CredentialKind → Bool
is_fetch_failed fetch_failed = true
is_fetch_failed no_usable = false

-- What one call of `session.send()` under the outcome wait comes to.
pub data Sent : Type 0 where
  sent : Sent
  failed : Error → Sent
  timed_out : Sent

-- Whether the loop of `attempts` returns, or sends again after this error.
pub data Verdict : Type 0 where
  done : WriteResult → Verdict
  again : Error → Verdict

-- The removal at the end of `attempts`.
abbrev pub removal_of : Error → Removal
removal_of (refused r) = Removal.refused (refused r)
removal_of e = Removal.failed e

pub record Task {ℓ} (V : Type ℓ) : Type ℓ where
  pub shared : Shared V
  pub gates : List ℕ
  pub held : List (ℕ × (Entry V × Option (Write V)))
  pub entry : Option (Entry V)
  pub attempt : Option (Entry V)

module _ {ℓ} {V : Type ℓ} where
  abbrev is_started : Write V → Bool
  is_started (Write.started run_id start_id) = true
  is_started _ = false

  unfoldable pub resendable : Write V → Error → Bool
  resendable w (unavailable f) = true
  resendable w (lost f) = true
  resendable w (unreadable text) = true
  resendable w (credential failure) = is_fetch_failed failure.kind
  resendable w (refused r) = if is_started w then Reason.eq r.reason instance_unknown else false
  resendable w _ = false

  abbrev judge : Write V → Error → Verdict
  judge w e = if resendable w e then again e else done (err (removal_of e))

  -- One round of the loop in `attempts`.
  unfoldable pub attempt_once : Write V → Sent → Verdict
  unfolding resendable
  attempt_once w sent = done ok
  attempt_once w (failed e) = judge w e
  attempt_once w timed_out = judge w (wait_error "no outcome within the outcome wait")

  -- The loop of `attempts` over the outcomes of its sends: `none` while it still runs.
  unfoldable pub attempts : Shared V → Entry V → List Sent → Shared V × Option WriteResult
  unfolding attempt_once
  attempts s entry [] = (s, none)
  attempts s entry (outcome ∷ rest) = elim (attempt_once entry.write outcome) [
    | done r ↦ (s, some r)
    | again e ↦ attempts (record_failure s entry.seq (name entry.write) e) entry rest
  ]

  unfoldable pub next_head_from : List (Entry V) → Shared V → Shared V × Option (Entry V)
  next_head_from [] s = (s, none)
  next_head_from (head ∷ rest) s =
      let t = record s { fifo = rest } in
      let after = λ (removal : Removal). next_head_from rest (complete t head (err removal)) in
      if s.stopped then (s, none) else elim (blocked head.write t.ended) [
        | some removal ↦ after removal
        | none ↦ (t, some head)
      ]

  unfoldable pub next_head : Shared V → Shared V × Option (Entry V)
  unfolding next_head_from
  next_head s = next_head_from s.fifo s

  -- The follow is queued before the entry, and nobody waits for its end.
  abbrev push_follow : Shared V → ℕ → Option (Write V) → Shared V
  push_follow s now none = s
  push_follow s now (some w) =
      let (t, seq) = register s now w in
      record t { fifo = t.fifo ++ record { seq = seq; write = w } ∷ [] }

  unfoldable pub gate_ended : Shared V → ℕ → Entry V → Option (Write V) → Gate → Shared V
  gate_ended s now entry follow stored =
      let t = push_follow s now follow in
      if s.stopped
      then complete s entry (err left_unsent)
      else record t { fifo = t.fifo ++ entry ∷ [] }
  gate_ended s now entry follow dropped = complete s entry (err depends_on_removed)

  unfoldable pub new : Shared V → Task V
  new s = record { shared = s; gates = []; held = []; entry = none; attempt = none }

  unfoldable pub take_items : List (Held V) → Task V → Task V
  take_items [] t = t
  take_items (item ∷ items) t = take_items items (record t {
    gates = item.entry.seq ∷ t.gates;
    held = put item.entry.seq (item.entry, item.follow) t.held;
  })

  unfoldable pub take_new_held : Task V → Task V
  unfolding take_items
  take_new_held t =
      take_items t.shared.new_held (record t { shared = record (t.shared) { new_held = [] } })

  abbrev started_head : Task V → Shared V × Option (Entry V) → Task V
  started_head t (s, none) = record t { shared = s }
  started_head t (s, some head) = record t { shared = s; entry = some head; attempt = some head }

  abbrev take_head_if : Task V → Option (Entry V) → Task V
  take_head_if t none = started_head t (next_head t.shared)
  take_head_if t (some running) = t

  unfoldable pub take_head : Task V → Task V
  unfolding next_head
  take_head t = take_head_if t t.entry

  abbrev gate_of : Task V → ℕ → Gate → Option (Entry V × Option (Write V)) → Task V
  gate_of t now gate none = t
  gate_of t now gate (some (entry, follow)) = record t {
    shared = gate_ended t.shared now entry follow gate;
  }

  -- The branch of the `select!` in which a gate ends.
  unfoldable pub gate_branch : Task V → ℕ → ℕ → Gate → Task V
  unfolding gate_ended
  gate_branch t now seq gate =
      let open_gate = record t { gates = remove seq t.gates; held = delete seq t.held } in
      if contains seq t.gates then gate_of open_gate now gate (lookup seq t.held) else t

  abbrev finish_entry : Task V → Option (Entry V) → WriteResult → Task V
  finish_entry t none r = t
  finish_entry t (some entry) r = record t { shared = complete t.shared entry r }

  abbrev pub judged : Task V → Entry V → Verdict → Task V
  judged t running (again e) = record t {
    shared = record_failure t.shared running.seq (name running.write) e;
  }
  judged t running (done r) = finish_entry (record t { attempt = none; entry = none }) t.entry r

  abbrev outcome_of : Task V → Option (Entry V) → Sent → Task V
  outcome_of t none outcome = t
  outcome_of t (some running) outcome = judged t running (attempt_once running.write outcome)

  -- A send of the running attempt comes to an outcome: the loop of `attempts` goes on, or the
  -- branch of the `select!` in which the attempt is done.
  unfoldable pub outcome_branch : Task V → Sent → Task V
  unfolding attempt_once
  outcome_branch t outcome = outcome_of t t.attempt outcome

  abbrev pub listed : Option (Entry V) → List (Entry V)
  listed none = []
  listed (some entry) = entry ∷ []

  -- `sort_by_key`.
  unfoldable pub insert_by_seq : Entry V → List (Entry V) → List (Entry V)
  insert_by_seq e [] = e ∷ []
  insert_by_seq e (f ∷ fs) = if leb e.seq f.seq then e ∷ f ∷ fs else f ∷ insert_by_seq e fs

  unfoldable pub sort_by_seq : List (Entry V) → List (Entry V)
  unfolding insert_by_seq
  sort_by_seq [] = []
  sort_by_seq (e ∷ es) = insert_by_seq e (sort_by_seq es)

  unfoldable pub complete_all : Shared V → List (Entry V) → Shared V
  complete_all s [] = s
  complete_all s (e ∷ es) = complete_all (complete s e (err left_unsent)) es

  -- The entries of `Drop for Task`, before they are sorted.
  abbrev pub dropped_entries : Task V → List (Entry V)
  dropped_entries t =
      listed t.entry
      ++ (map (λ p. p.1.0) t.held ++ (t.shared.fifo ++ map (λ h. h.entry) t.shared.new_held))

  -- `Drop for Task`.
  unfoldable pub drop_task : Task V → Task V
  unfolding sort_by_seq complete_all
  drop_task t =
      let s = t.shared in
      record t {
        shared =
            complete_all (record s { stopped = true; fifo = []; new_held = [] })
              (sort_by_seq (dropped_entries t));
        gates = [];
        held = [];
        entry = none;
        attempt = none;
      }

-- What can happen to a queue and its task, in any order: calls of the handles, a round of the loop
-- up to its `select!`, the branches of the `select!`, and the drop of the task.
pub data Event {ℓ} (V : Type ℓ) : Type ℓ where
  hands_over : ℕ → Write V → Event V
  holds : ℕ → Write V → Option (Write V) → Event V
  stops : Event V
  turns : Event V
  gates : ℕ → ℕ → Gate → Event V
  outcomes : Sent → Event V
  drops : Event V

module _ {ℓ} {V : Type ℓ} where
  unfoldable pub step : Task V → Event V → Task V
  step t (hands_over now w) = record t { shared = (hand_over t.shared now w).0 }
  step t (holds now w follow) = record t { shared = (hold t.shared now w follow).0 }
  step t stops = record t { shared = stop_now t.shared }
  step t turns = take_head (take_new_held t)
  step t (gates now seq gate) = gate_branch t now seq gate
  step t (outcomes outcome) = outcome_branch t outcome
  step t drops = drop_task t

  unfoldable pub run : Task V → List (Event V) → Task V
  run t [] = t
  run t (e ∷ es) = run (step t e) es
