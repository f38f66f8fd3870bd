-- ===== src/Threads/Response/Faithful.antt =====
-- What a response that completes has sent.
use mathlib.Core.List.{append-nil, append_assoc}
use br_jobs_runner_kit.Prelude.{
  ℕ, ◌+◌, ◌≡◌, refl, sym, subst, ◌∙◌, true, List, [], ◌∷◌, ◌++◌, Option, none, some, arith, All,
  inl, inr, if_branches,
}
use br_jobs_runner_kit.Threads.Error.{Result, Result-cases, ok, fail, ◌>>=◌}
use br_jobs_runner_kit.Threads.Draft.{
  Messages, ModelResponse, ResponseDelta, fold, whole_response_deltas, whole_ops, wrap_all,
  response_completed, reaches,
}
use br_jobs_runner_kit.Threads.Response.{
  Shared, Event, pair, took, send_all, sent_one, complete_with, complete, severed, run,
}
use br_jobs_runner_kit.Threads.Response.Follows.{
  applied, applied-append, Keeps, Tells, SeveringEvent, Follows, fold-applied, run-Follows,
  pair-Follows,
}

sent_one-ok :
    {m : Messages} (s after : Shared m) (a r : Result (Unit {0}))
    (rest : Shared m × Result (Unit {0}))
    → (sent_one s after a r rest).1 ≡ ok tt
    → sent_one s after a r rest ≡ rest
unfolding sent_one
sent_one-ok s after (fail e) r rest h = absurd (ground arith)
sent_one-ok s after (ok u) (fail e) rest h = absurd (ground arith)
sent_one-ok s after (ok u) (ok v) rest h = refl

-- What a loop that ends well leaves.
abbrev HasSent : (m : Messages) → Shared m → List ResponseDelta → Shared m → Type 0
HasSent m s deltas after = (after.state.done ≡ true) × (after.taken ≡ s.taken ++ deltas)

send_all-ok :
    (m : Messages) (s : Shared m) (deltas : List ResponseDelta) (answers : ℕ → Result (Unit {0}))
    (k : ℕ)
    → (send_all m s deltas answers k).1 ≡ ok tt
    → HasSent m s deltas (send_all m s deltas answers k).0
unfolding send_all took
send_all-ok m s [] answers k h = (refl, sym (append-nil s.taken))
send_all-ok m s (delta ∷ deltas) answers k h =
    let after =
      took (record s { state = record s.state { draft = (m.apply s.state.draft delta).0 } })
        delta in
    let rest = send_all m after deltas answers (k + 1) in
    let same = sent_one-ok s after (answers k) (m.apply s.state.draft delta).1 rest h in
    let sent =
      send_all-ok m after deltas answers (k + 1)
        (subst (λ (c : Shared m × Result (Unit {0})). c.1 ≡ ok tt) same h) in
    subst (λ (c : Shared m × Result (Unit {0})). HasSent m s (delta ∷ deltas) c.0) (sym same)
      (sent.0, sent.1 ∙ append_assoc s.taken (delta ∷ []) deltas)

-- The draft comes to the response by the deltas.
abbrev pub Arrives : (m : Messages) → m.Draft → List ResponseDelta → ModelResponse → Type 0
Arrives m d deltas response = m.into_response (applied m d deltas) ≡ some response

reaches-some :
    (m : Messages) (made : Option ModelResponse) (response : ModelResponse)
    → Tells m
    → reaches m made response ≡ true
    → made ≡ some response
unfolding reaches
reaches-some m none response tells h = absurd (ground arith)
reaches-some m (some made) response tells h = ground (arith, tells made response h)

whole-Arrives :
    (m : Messages) (d : m.Draft) (response : ModelResponse) (deltas : List ResponseDelta)
    → Tells m
    → whole_response_deltas m d response ≡ ok deltas
    → Arrives m d deltas response
unfolding whole_response_deltas
whole-Arrives m d response deltas tells h = elim (Result-cases (whole_ops m d response)) [
  | inl (e, q) ↦ absurd (ground arith)
  | inr (ops, q) ↦
      let made = wrap_all m d (ops ++ response_completed response.ending ∷ []) in
      elim (Result-cases (fold m d made)) [
        | inl (e, p) ↦ absurd (ground arith)
        | inr (folded, p) ↦
            let arrives : reaches m (m.into_response folded) response ≡ true = ground arith in
            let same : made ≡ deltas = ground arith in
            subst (λ ds. Arrives m d ds response) same
              (subst (λ x. m.into_response x ≡ some response) (fold-applied m d folded made p)
                (reaches-some m (m.into_response folded) response tells arrives))
      ]
]

sent-Arrives :
    (m : Messages) (start : m.Draft) (s after : Shared m) (response : ModelResponse)
    (deltas : List ResponseDelta)
    → s.state.draft ≡ applied m start s.taken
    → Arrives m s.state.draft deltas response
    → HasSent m s deltas after
    → Arrives m start after.taken response
sent-Arrives m start s after response deltas follows arrives sent =
    subst (λ taken. Arrives m start taken response) (sym sent.1)
      (subst (λ x. m.into_response x ≡ some response) (sym (applied-append m start s.taken deltas))
        (subst (λ x. m.into_response (applied m x deltas) ≡ some response) follows arrives))

-- What `complete` leaves where it ends well.
abbrev pub IsComplete : (m : Messages) → m.Draft → ModelResponse → Shared m → Type 0
IsComplete m start response after = (after.state.done ≡ true) × Arrives m start after.taken response

complete_with-IsComplete :
    (m : Messages) (start : m.Draft) (s : Shared m) (response : ModelResponse)
    (answers : ℕ → Result (Unit {0})) (allowed : Result (Unit {0}))
    → Tells m
    → (allowed ≡ ok tt → s.state.draft ≡ applied m start s.taken)
    → (complete_with m s (do u ← allowed; whole_response_deltas m s.state.draft response) answers).1
      ≡ ok tt
    → IsComplete m start response
        (complete_with m s
          (do u ← allowed; whole_response_deltas m s.state.draft response)
          answers).0
unfolding complete_with
complete_with-IsComplete m start s response answers (fail e) tells f h = absurd (ground arith)
complete_with-IsComplete m start s response answers (ok tt) tells f h =
    let w = whole_response_deltas m s.state.draft response in
    elim (Result-cases w) [
      | inl (e, q) ↦ absurd (ground arith)
      | inr (deltas, q) ↦
          let won = subst (λ x. (complete_with m s x answers).1 ≡ ok tt) q h in
          let sent = send_all-ok m s deltas answers 0 won in
          subst (λ x. IsComplete m start response (complete_with m s x answers).0) (sym q)
            (
              sent.0,
              sent-Arrives m start s (send_all m s deltas answers 0).0 response deltas (f refl)
                  (whole-Arrives m s.state.draft response deltas tells q) sent,
            )
    ]

-- Whatever was sent, completed, discarded and ended on a response of an adapter, where its lane
-- fails only with errors that sever it and a failing `apply` keeps the draft: where `complete` then
-- ends well, the deltas that the lane took from the start on come to exactly the response, and the
-- response is done.
pub complete-arrives :
    (m : Messages) (turn entry : ℕ) (events : List Event) (response : ModelResponse)
    (answers : ℕ → Result (Unit {0}))
    → Keeps m
    → Tells m
    → All SeveringEvent events
    → let s = run m (pair m turn entry) events in
      (complete m s response answers).1 ≡ ok tt
      → IsComplete m (m.new_draft turn entry) response (complete m s response answers).0
unfolding complete Follows
complete-arrives m turn entry events response answers keeps tells v h =
    let start = m.new_draft turn entry in
    let s = run m (pair m turn entry) events in
    let follows =
      run-Follows m start (pair m turn entry) events keeps v (pair-Follows m turn entry) in
    if_branches
      (λ (c : Shared m × Result (Unit {0})). c.1 ≡ ok tt → IsComplete m start response c.0)
      s.state.done (λ q j. absurd (ground (arith, j)))
      (λ q.
        complete_with-IsComplete m start s response answers (severed s.failure) tells (follows q))
      h
