-- ===== src/Threads/Response.antt =====
-- crates/br-runner-threads/src/response: the sink and the control of a response. The mutex of the
-- state is held across the calls of the lane, so a method is one step, and the answers of the lane
-- are arguments.
pub mod Follows
pub mod Faithful
use br_jobs_runner_kit.Prelude.{
  ◌&&◌, ℕ, ◌+◌, Bool, true, false, not, ◌||◌, List, [], ◌∷◌, ◌++◌, Option, none, some, nat_beq, ltb,
  length, if◌then◌else◌,
}
use br_jobs_runner_kit.Threads.Error.{
  Error, invalid_input, stream_broken, stream_closed, store, Result, ok, fail, ◌>>=◌,
}
use br_jobs_runner_kit.Threads.Draft.{
  ModelResponse, DeltaOp, response_completed, response_cancelled, ResponseDelta, Messages, behind,
  wrap, whole_response_deltas,
}

pub record State (m : Messages) : Type 0 where
  pub draft : m.Draft
  pub sent : Bool
  pub done : Bool

-- `taken` is what the lane took, in order.
pub record Shared (m : Messages) : Type 0 where
  pub state : State m
  pub failure : Option Error
  pub taken : List ResponseDelta

-- The first of two failures.
unfoldable pub first : Option Error → Error → Option Error
first none e = some e
first (some kept) e = some kept

unfoldable pub keep : {m : Messages} → Shared m → Error → Shared m
unfolding first
keep s e = record s { failure = first s.failure e }

unfoldable pub pair : (m : Messages) → ℕ → ℕ → Shared m
pair m turn entry = record {
  state = record { draft = m.new_draft turn entry; sent = false; done = false };
  failure = none;
  taken = [];
}

abbrev pub is_some : Option Error → Bool
is_some none = false
is_some (some e) = true

abbrev pub is_completed : DeltaOp → Bool
is_completed (response_completed e) = true
is_completed _ = false

-- The lane took the delta.
unfoldable pub took : {m : Messages} → Shared m → ResponseDelta → Shared m
took s delta = record s { state = record s.state { sent = true }; taken = s.taken ++ delta ∷ [] }

unfoldable pub deliver_answered :
    {m : Messages} → Shared m → ResponseDelta → Result (Unit {0}) → Shared m
unfolding took keep
deliver_answered s delta (ok u) = took s delta
deliver_answered s delta (fail e) = keep s e

unfoldable pub deliver_applied :
    {m : Messages} → Shared m → ResponseDelta → Result (Unit {0}) → Result (Unit {0}) → Shared m
unfolding deliver_answered keep
deliver_applied s delta (fail e) answer = keep s e
deliver_applied s delta (ok u) answer = deliver_answered s delta answer

unfoldable pub keep_failed : {m : Messages} → Shared m → Result (Unit {0}) → Shared m
unfolding keep
keep_failed s (fail e) = keep s e
keep_failed s (ok u) = s

unfoldable pub deliver : (m : Messages) → Shared m → ResponseDelta → Result (Unit {0}) → Shared m
unfolding keep_failed deliver_applied
deliver m s delta answer =
    let applied = m.apply s.state.draft delta in
    if s.state.done || is_some s.failure
    then s
    else if is_completed delta.op
    then keep_failed s applied.1
    else deliver_applied (record s { state = record s.state { draft = applied.0 } }) delta applied.1
        answer

-- The failures behind which nothing more is sent.
abbrev pub severs : Error → Bool
severs stream_broken = true
severs stream_closed = true
severs (store text) = true
severs _ = false

-- What comes of one delta: `after` is the state where the lane took it.
unfoldable pub sent_one :
    {m : Messages}
    → Shared m
    → Shared m
    → Result (Unit {0})
    → Result (Unit {0})
    → Shared m × Result (Unit {0})
    → Shared m × Result (Unit {0})
unfolding keep
sent_one s after (fail e) applied rest = (keep s e, fail e)
sent_one s after (ok u) (fail e) rest = (after, fail e)
sent_one s after (ok u) (ok v) rest = rest

-- The loop of `complete`, with the answer of the lane to each delta.
unfoldable pub send_all :
    (m : Messages)
    → Shared m
    → List ResponseDelta
    → (ℕ → Result (Unit {0}))
    → ℕ
    → Shared m × Result (Unit {0})
unfolding took sent_one
send_all m s [] answers k = (record s { state = record s.state { done = true } }, ok tt)
send_all m s (delta ∷ deltas) answers k =
    let applied = m.apply s.state.draft delta in
    let after = took (record s { state = record s.state { draft = applied.0 } }) delta in
    let rest = send_all m after deltas answers (k + 1) in
    sent_one s after (answers k) applied.1 rest

unfoldable pub complete_with :
    (m : Messages)
    → Shared m
    → Result (List ResponseDelta)
    → (ℕ → Result (Unit {0}))
    → Shared m × Result (Unit {0})
unfolding send_all
complete_with m s (fail e) answers = (s, fail e)
complete_with m s (ok deltas) answers = send_all m s deltas answers 0

-- The early return of `complete` on a failure that was kept.
unfoldable pub severed : Option Error → Result (Unit {0})
severed none = ok tt
severed (some e) = if severs e then fail e else ok tt

unfoldable pub complete :
    (m : Messages)
    → Shared m
    → ModelResponse
    → (ℕ → Result (Unit {0}))
    → Shared m × Result (Unit {0})
unfolding whole_response_deltas complete_with severed
complete m s response answers =
    if s.state.done
    then (s, fail (invalid_input "the response is already completed or discarded"))
    else complete_with m s
        (do u ← severed s.failure; whole_response_deltas m s.state.draft response) answers

abbrev pub stream_ended : Option Error → Bool
stream_ended (some stream_broken) = true
stream_ended (some stream_closed) = true
stream_ended _ = false

abbrev pub is_closed : Error → Bool
is_closed stream_closed = true
is_closed _ = false

unfoldable pub discarded :
    (m : Messages) → Shared m → ResponseDelta → Result (Unit {0}) → Shared m × Result (Unit {0})
unfolding keep
discarded m s delta (ok u) =
    (record s { state = record s.state { done = true }; taken = s.taken ++ delta ∷ [] }, ok tt)
discarded m s delta (fail e) = (keep s e, if is_closed e then ok tt else fail e)

unfoldable pub discard :
    (m : Messages) → Shared m → Result (Unit {0}) → Shared m × Result (Unit {0})
unfolding discarded wrap
discard m s answer =
    if s.state.done || not s.state.sent
    then (s, ok tt)
    else if stream_ended s.failure
    then (s, ok tt)
    else discarded m s (wrap m s.state.draft response_cancelled) answer

-- `ResponseControl::end`.
unfoldable pub end : {m : Messages} → Shared m → Shared m
end s = record s { state = record s.state { done = true } }

-- A call of the sink or of the control, with the answers of the lane.
pub data Event : Type 0 where
  sends : ResponseDelta → Result (Unit {0}) → Event
  completes : ModelResponse → (ℕ → Result (Unit {0})) → Event
  discards : Result (Unit {0}) → Event
  ends : Event

unfoldable pub step : (m : Messages) → Shared m → Event → Shared m
unfolding deliver complete discard end
step m s (sends delta answer) = deliver m s delta answer
step m s (completes response answers) = (complete m s response answers).0
step m s (discards answer) = (discard m s answer).0
step m s ends = end s

unfoldable pub run : (m : Messages) → Shared m → List Event → Shared m
unfolding step
run m s [] = s
run m s (e ∷ events) = run m (step m s e) events
