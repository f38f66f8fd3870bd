-- ===== src/Jobs/Queue/Shared.antt =====
-- crates/br-runner-jobs/src/queue/shared.rs: the state that the handles and the task share. Each
-- method is one step: it takes the state and returns the new one. `complete` gives the lock
-- back before it sends the end of the write, and is cut there. Besides the fields under the
-- mutex, the state keeps what the methods send out: the reports to the observer, newest first, and
-- the ends that went to the callers, newest first, each under the number of its write.
pub mod Cases
pub mod Accounts
use br_jobs_runner_kit.Prelude.{
  ℕ, ◌+◌, Bool, true, false, List, [], ◌∷◌, ◌++◌, map, Option, none, some, ltb, nat_beq, put,
  if◌then◌else◌, min,
}
use br_jobs_runner_kit.Jobs.Error.{Error}
use br_jobs_runner_kit.Jobs.Queue.Write.{
  Write, WriteName, Removal, WriteResult, WriteEnd, QueueReport, ok, err, name, left_unsent, queued,
  ended, retrying, removed, delivered,
}
use br_jobs_runner_kit.Jobs.Queue.Deps.{DepKey, Ended, dep_eq, of, own_key, blocked}

pub data Gate : Type 0 where
  stored dropped : Gate

pub record Entry {ℓ} (V : Type ℓ) : Type ℓ where
  pub seq : ℕ
  pub write : Write V

-- The gate is a future of the caller: it ends in a step of its own.
pub record Held {ℓ} (V : Type ℓ) : Type ℓ where
  pub entry : Entry V
  pub follow : Option (Write V)

pub record Pending : Type 0 where
  pub name : WriteName
  pub handed_over : ℕ

pub record LastFailure : Type 0 where
  pub write : WriteName
  pub error : Error

-- `pending` is a BTreeMap: a list in the order of the keys. The front of `fifo` is its head.
pub record Shared {ℓ} (V : Type ℓ) : Type ℓ where
  pub fifo : List (Entry V)
  pub new_held : List (Held V)
  pub pending : List (ℕ × Pending)
  pub ended : List (DepKey × Ended)
  pub next_seq : ℕ
  pub stopped : Bool
  pub last_failure : Option (ℕ × LastFailure)
  pub reports : List QueueReport
  pub ends : List (ℕ × WriteResult)
  pub progress : ℕ
  pub cancelled : Bool

-- `BTreeMap::insert`.
unfoldable pub insert_ordered : ℕ → Pending → List (ℕ × Pending) → List (ℕ × Pending)
insert_ordered k v [] = (k, v) ∷ []
insert_ordered k v ((j, w) ∷ m) =
    if ltb k j
    then (k, v) ∷ (j, w) ∷ m
    else if nat_beq k j
    then (k, v) ∷ m
    else (j, w) ∷ insert_ordered k v m

-- `BTreeMap::remove`.
unfoldable pub remove_ordered : ℕ → List (ℕ × Pending) → List (ℕ × Pending)
remove_ordered k [] = []
remove_ordered k ((j, w) ∷ m) = if nat_beq k j then m else (j, w) ∷ remove_ordered k m

abbrev pub end_key : Option DepKey → Ended → List (DepKey × Ended) → List (DepKey × Ended)
end_key none e m = m
end_key (some key) e m = put key e m

-- The report of `complete`.
abbrev pub end_report : WriteName → WriteResult → QueueReport
end_report n ok = delivered n
end_report n (err removal) = removed n removal

-- `last_failure` is cleared if it is of the write `seq`.
abbrev pub clear_failure : ℕ → Option (ℕ × LastFailure) → Option (ℕ × LastFailure)
clear_failure seq none = none
clear_failure seq (some (s, f)) = if nat_beq s seq then none else some (s, f)

module _ {ℓ} {V : Type ℓ} where
  unfoldable pub new : Shared V
  new = record {
    fifo = [];
    new_held = [];
    pending = [];
    ended = [];
    next_seq = 0;
    stopped = false;
    last_failure = none;
    reports = [];
    ends = [];
    progress = 0;
    cancelled = false;
  }

  unfoldable pub report : Shared V → QueueReport → Shared V
  report s r = record s { reports = r ∷ s.reports }

  unfoldable pub register : Shared V → ℕ → Write V → Shared V × ℕ
  register s now w = (
    record s {
      next_seq = s.next_seq + 1;
      pending = insert_ordered s.next_seq (record { name = name w; handed_over = now }) s.pending;
    },
    s.next_seq,
  )

  unfoldable pub finish_unqueued :
      Shared V → Write V → Removal → Shared V × WriteEnd × Option QueueReport
  finish_unqueued s w removal = (
    record s { ended = end_key (own_key w) (of (err removal)) s.ended },
    ended (err removal),
    some (removed (name w) removal),
  )

  abbrev enqueue_free : Shared V → ℕ → Write V → Shared V × WriteEnd × Option QueueReport
  enqueue_free s now w =
      let (t, seq) = register s now w in
      (record t { fifo = t.fifo ++ record { seq = seq; write = w } ∷ [] }, queued seq, none)

  abbrev enqueue_unless :
      Shared V → ℕ → Write V → Option Removal → Shared V × WriteEnd × Option QueueReport
  enqueue_unless s now w (some removal) = finish_unqueued s w removal
  enqueue_unless s now w none = enqueue_free s now w

  unfoldable pub enqueue : Shared V → ℕ → Write V → Shared V × WriteEnd × Option QueueReport
  enqueue s now w =
      if s.stopped
      then finish_unqueued s w left_unsent
      else enqueue_unless s now w (blocked w s.ended)

  abbrev pub reported : Shared V × WriteEnd × Option QueueReport → Shared V × WriteEnd
  reported (s, end, none) = (s, end)
  reported (s, end, some r) = (report s r, end)

  unfoldable pub hand_over : Shared V → ℕ → Write V → Shared V × WriteEnd
  hand_over s now w = reported (enqueue s now w)

  unfoldable pub finish_reported : Shared V → Write V → Removal → Shared V × WriteEnd
  finish_reported s w removal = reported (finish_unqueued s w removal)

  abbrev hold_free : Shared V → ℕ → Write V → Option (Write V) → Shared V × WriteEnd
  hold_free s now w follow =
      let (t, seq) = register s now w in
      (
        record t {
          new_held =
              t.new_held
              ++ record { entry = record { seq = seq; write = w }; follow = follow } ∷ [];
        },
        queued seq,
      )

  unfoldable pub hold : Shared V → ℕ → Write V → Option (Write V) → Shared V × WriteEnd
  hold s now w follow =
      if s.stopped then finish_reported s w left_unsent else hold_free s now w follow

  -- `complete` up to the point where it gives the lock back: the write is no longer pending, and its
  -- end is not sent yet. Other threads may take the lock in between.
  abbrev pub settle : Shared V → Entry V → WriteResult → Shared V
  settle s entry result =
      let t = record s { reports = end_report (name entry.write) result ∷ s.reports } in
      record t {
        pending = remove_ordered entry.seq t.pending;
        ended = end_key (own_key entry.write) (of result) t.ended;
        last_failure = clear_failure entry.seq t.last_failure;
      }

  -- The rest of `complete`, which sends the end.
  abbrev pub send_end : Shared V → ℕ → WriteResult → Shared V
  send_end s seq result = record s { ends = (seq, result) ∷ s.ends; progress = s.progress + 1 }

  unfoldable pub complete : Shared V → Entry V → WriteResult → Shared V
  complete s entry result = send_end (settle s entry result) entry.seq result

  unfoldable pub record_failure : Shared V → ℕ → WriteName → Error → Shared V
  record_failure s seq n e =
      let t = record s { last_failure = some (seq, record { write = n; error = e }) } in
      report t (retrying n e)

  unfoldable pub stop_now : Shared V → Shared V
  stop_now s = record s { stopped = true; cancelled = true }

pub record QueueState : Type 0 where
  pub waiting : List WriteName
  pub oldest_handed_over : Option ℕ
  pub last_failure : Option LastFailure

-- `Iterator::min`.
unfoldable pub oldest : List (ℕ × Pending) → Option ℕ
oldest [] = none
oldest ((seq, p) ∷ rest) = elim (oldest rest) [
  | none ↦ some p.handed_over
  | some t ↦ some (min p.handed_over t)
]

abbrev failure_of : Option (ℕ × LastFailure) → Option LastFailure
failure_of none = none
failure_of (some (seq, f)) = some f

-- The test of the loop in `drained`: whether the first pending write is one of those up to `upto`.
unfoldable pub waits : List (ℕ × Pending) → ℕ → Bool
waits [] upto = false
waits ((first, p) ∷ rest) upto = ltb first upto

module _ {ℓ} {V : Type ℓ} where
  unfoldable pub snapshot : Shared V → QueueState
  unfolding oldest
  snapshot s = record {
    waiting = map (λ p. p.1.name) s.pending;
    oldest_handed_over = oldest s.pending;
    last_failure = failure_of s.last_failure;
  }
