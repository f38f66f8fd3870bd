-- ===== src/Threads/Response/Follows.antt =====
-- The draft of a response and what its lane took.

use br_jobs_runner_kit.Prelude.{
  not, ℕ, ◌+◌, ◌≡◌, refl, sym, subst, ◌∙◌, Bool, true, false, ◌||◌, List, [], ◌∷◌, ◌++◌, Option,
  none, some, arith, All, inl, inr, if_branches,
}
use br_jobs_runner_kit.Threads.Error.{Error, Result, Result-cases, ok, fail}
use br_jobs_runner_kit.Threads.Draft.{Messages, ModelResponse, ResponseDelta, fold}
use br_jobs_runner_kit.Threads.Response.{
  Shared, Event, sends, completes, discards, ends, keep, first, pair, took, deliver,
  deliver_applied, deliver_answered, keep_failed, send_all, sent_one, is_some, is_completed,
  stream_ended, complete_with, complete, severed, severs, discard, discarded, end, step, run,
}

-- The draft behind the deltas, applied in order.
unfoldable pub applied : (m : Messages) → m.Draft → List ResponseDelta → m.Draft
applied m d [] = d
applied m d (delta ∷ deltas) = applied m (m.apply d delta).0 deltas

pub applied-append :
    (m : Messages) (d : m.Draft) (xs ys : List ResponseDelta)
    → applied m d (xs ++ ys) ≡ applied m (applied m d xs) ys
unfolding applied
applied-append m d [] ys = refl
applied-append m d (x ∷ xs) ys = applied-append m (m.apply d x).0 xs ys

-- A failing `apply` leaves the draft as it was.
abbrev pub Keeps : Messages → Type 0
Keeps m =
    (d : m.Draft) (delta : ResponseDelta) (e : Error)
    → (m.apply d delta).1 ≡ fail e
    → (m.apply d delta).0 ≡ d

-- The comparison of responses tells different ones apart.
abbrev pub Tells : Messages → Type 0
Tells m = (r r' : ModelResponse) → m.same r r' ≡ true → r ≡ r'

-- The lane fails with an error that severs it.
abbrev pub Severing : Result (Unit {0}) → Type 0
Severing answer = (e : Error) → answer ≡ fail e → severs e ≡ true

abbrev pub SeveringEvent : Event → Type 0
SeveringEvent (sends delta answer) = Severing answer
SeveringEvent _ = Unit

-- Unless the response is done or severed, its draft is what the lane took.
unfoldable pub Follows : (m : Messages) → m.Draft → Shared m → Type 0
Follows m start s =
    s.state.done ≡ false → severed s.failure ≡ ok tt → s.state.draft ≡ applied m start s.taken

pub fold-applied :
    (m : Messages) (d d' : m.Draft) (deltas : List ResponseDelta)
    → fold m d deltas ≡ ok d'
    → d' ≡ applied m d deltas
unfolding fold applied
fold-applied m d d' [] h = ground arith
fold-applied m d d' (delta ∷ deltas) h = elim (Result-cases (m.apply d delta).1) [
  | inl (e, q) ↦ absurd (ground arith)
  | inr (u, q) ↦ fold-applied m (m.apply d delta).0 d' deltas (ground arith)
]

severed-first : (f : Option Error) (e : Error) → severed (first f e) ≡ ok tt → severed f ≡ ok tt
unfolding first severed
severed-first none e h = refl
severed-first (some kept) e h = h

severed-lane :
    (f : Option Error) (e : Error) {A : Type 0}
    → is_some f ≡ false
    → severs e ≡ true
    → severed (first f e) ≡ ok tt
    → A
unfolding first severed
severed-lane none e n v h = absurd (ground (arith, v))
severed-lane (some kept) e n v h = absurd (ground arith)

keep-Follows :
    (m : Messages) (start : m.Draft) (s : Shared m) (e : Error)
    → Follows m start s
    → Follows m start (keep s e)
unfolding Follows keep
keep-Follows m start s e f going whole = f going (severed-first s.failure e whole)

took-draft :
    (m : Messages) (start d d' : m.Draft) (xs : List ResponseDelta) (delta : ResponseDelta)
    → d' ≡ (m.apply d delta).0
    → d ≡ applied m start xs
    → d' ≡ applied m start (xs ++ delta ∷ [])
unfolding applied
took-draft m start d d' xs delta p q =
    p
    ∙ subst (λ x. (m.apply d delta).0 ≡ (m.apply x delta).0) q refl
    ∙ sym (applied-append m start xs (delta ∷ []))

deliver_applied-Follows :
    (m : Messages) (start : m.Draft) (s : Shared m) (delta : ResponseDelta) (d' : m.Draft)
    (r answer : Result (Unit {0}))
    → ((e : Error) → r ≡ fail e → d' ≡ s.state.draft)
    → d' ≡ (m.apply s.state.draft delta).0
    → is_some s.failure ≡ false
    → Severing answer
    → Follows m start s
    → Follows m start
        (deliver_applied (record s { state = record s.state { draft = d' } }) delta r answer)
unfolding Follows deliver_applied deliver_answered keep took
deliver_applied-Follows m start s delta d' (fail e) answer same made free v f going whole =
    same e refl ∙ f going (severed-first s.failure e whole)
deliver_applied-Follows m start s delta d' (ok u) (ok w) same made free v f going whole =
    took-draft m start s.state.draft d' s.taken delta made (f going whole)
deliver_applied-Follows m start s delta d' (ok u) (fail e) same made free v f going whole =
    severed-lane s.failure e free (v e refl) whole

keep_failed-Follows :
    (m : Messages) (start : m.Draft) (s : Shared m) (r : Result (Unit {0}))
    → Follows m start s
    → Follows m start (keep_failed s r)
unfolding keep_failed
keep_failed-Follows m start s (fail e) f = keep-Follows m start s e f
keep_failed-Follows m start s (ok u) f = f

or_false : (a b : Bool) → (a || b) ≡ false → b ≡ false
or_false a b h = ground (arith, h)

deliver-Follows :
    (m : Messages) (start : m.Draft) (s : Shared m) (delta : ResponseDelta)
    (answer : Result (Unit {0}))
    → Keeps m
    → Severing answer
    → Follows m start s
    → Follows m start (deliver m s delta answer)
unfolding deliver
deliver-Follows m start s delta answer keeps v f =
    if_branches (Follows m start) (s.state.done || is_some s.failure) (λ q. f)
      (λ q.
        if_branches (Follows m start) (is_completed delta.op)
          (λ c. keep_failed-Follows m start s (m.apply s.state.draft delta).1 f)
          (λ c.
            deliver_applied-Follows m start s delta (m.apply s.state.draft delta).0
              (m.apply s.state.draft delta).1 answer (keeps s.state.draft delta) refl
              (or_false s.state.done (is_some s.failure) q) v f))

took-Follows :
    (m : Messages) (start : m.Draft) (s : Shared m) (delta : ResponseDelta)
    → Follows m start s
    → Follows m start (
        took
          (record s { state = record s.state { draft = (m.apply s.state.draft delta).0 } })
          delta)
unfolding Follows took
took-Follows m start s delta f going whole =
    took-draft m start s.state.draft _ s.taken delta refl (f going whole)

sent_one-Follows :
    (m : Messages) (start : m.Draft) (s after : Shared m) (a r : Result (Unit {0}))
    (rest : Shared m × Result (Unit {0}))
    → Follows m start s
    → Follows m start after
    → Follows m start rest.0
    → Follows m start (sent_one s after a r rest).0
unfolding sent_one
sent_one-Follows m start s after (fail e) r rest f g h = keep-Follows m start s e f
sent_one-Follows m start s after (ok u) (fail e) rest f g h = g
sent_one-Follows m start s after (ok u) (ok v) rest f g h = h

send_all-Follows :
    (m : Messages) (start : m.Draft) (s : Shared m) (deltas : List ResponseDelta)
    (answers : ℕ → Result (Unit {0})) (k : ℕ)
    → Follows m start s
    → Follows m start (send_all m s deltas answers k).0
unfolding send_all Follows
send_all-Follows m start s [] answers k f = λ going whole. absurd (ground arith)
send_all-Follows m start s (delta ∷ deltas) answers k f =
    let g = took-Follows m start s delta f in
    sent_one-Follows m start s _ (answers k) (m.apply s.state.draft delta).1 _ f g
      (send_all-Follows m start _ deltas answers (k + 1) g)

complete_with-Follows :
    (m : Messages) (start : m.Draft) (s : Shared m) (w : Result (List ResponseDelta))
    (answers : ℕ → Result (Unit {0}))
    → Follows m start s
    → Follows m start (complete_with m s w answers).0
unfolding complete_with
complete_with-Follows m start s (fail e) answers f = f
complete_with-Follows m start s (ok deltas) answers f =
    send_all-Follows m start s deltas answers 0 f

complete-Follows :
    (m : Messages) (start : m.Draft) (s : Shared m) (response : ModelResponse)
    (answers : ℕ → Result (Unit {0}))
    → Follows m start s
    → Follows m start (complete m s response answers).0
unfolding complete
complete-Follows m start s response answers f =
    if_branches (λ (c : Shared m × Result (Unit {0})). Follows m start c.0) s.state.done (λ q. f)
      (λ q. complete_with-Follows m start s _ answers f)

discarded-Follows :
    (m : Messages) (start : m.Draft) (s : Shared m) (delta : ResponseDelta)
    (answer : Result (Unit {0}))
    → Follows m start s
    → Follows m start (discarded m s delta answer).0
unfolding discarded Follows
discarded-Follows m start s delta (ok u) f = λ going whole. absurd (ground arith)
discarded-Follows m start s delta (fail e) f = keep-Follows m start s e f

discard-Follows :
    (m : Messages) (start : m.Draft) (s : Shared m) (answer : Result (Unit {0}))
    → Follows m start s
    → Follows m start (discard m s answer).0
unfolding discard
discard-Follows m start s answer f =
    let motive = λ (c : Shared m × Result (Unit {0})). Follows m start c.0 in
    if_branches motive (s.state.done || not s.state.sent) (λ q. f)
      (λ q.
        if_branches motive (stream_ended s.failure) (λ c. f)
          (λ c. discarded-Follows m start s _ answer f))

step-Follows :
    (m : Messages) (start : m.Draft) (s : Shared m) (e : Event)
    → Keeps m
    → SeveringEvent e
    → Follows m start s
    → Follows m start (step m s e)
unfolding step end Follows
step-Follows m start s (sends delta answer) keeps v f =
    deliver-Follows m start s delta answer keeps v f
step-Follows m start s (completes response answers) keeps v f =
    complete-Follows m start s response answers f
step-Follows m start s (discards answer) keeps v f = discard-Follows m start s answer f
step-Follows m start s ends keeps v f = λ going whole. absurd (ground arith)

pub run-Follows :
    (m : Messages) (start : m.Draft) (s : Shared m) (events : List Event)
    → Keeps m
    → All SeveringEvent events
    → Follows m start s
    → Follows m start (run m s events)
unfolding run
run-Follows m start s [] keeps v f = f
run-Follows m start s (e ∷ events) keeps v f =
    run-Follows m start (step m s e) events keeps v.1 (step-Follows m start s e keeps v.0 f)

pub pair-Follows :
    (m : Messages) (turn entry : ℕ) → Follows m (m.new_draft turn entry) (pair m turn entry)
unfolding Follows pair applied
pair-Follows m turn entry going whole = refl
