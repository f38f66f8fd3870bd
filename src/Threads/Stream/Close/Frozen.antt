-- ===== src/Threads/Stream/Close/Frozen.antt =====
-- The end of a stream: what a handle does once it broke or a closing is over.
use br_jobs_runner_kit.Prelude.{
  ◌≢◌, Option-cases, ◌||◌, subst, ℕ, ◌≡◌, refl, Bool, true, false, List, [], ◌∷◌, Option, some,
  nat_eq, arith, inl, inr, contains, lookup, lookup-put, if_branches, ◌∙◌, sym,
}
use br_jobs_runner_kit.Threads.Error.{Result, ok, fail}
use br_jobs_runner_kit.Threads.Stream
use br_jobs_runner_kit.Threads.Wire.{Library, Chunk, StreamSeal, Command}
use br_jobs_runner_kit.Threads.Stream.{
  Closing, waiting, refused, lost, confirmed, not_refused, Core, judge_chunk, push_begins,
  push_with, push_ends, begin_closing, settle, Published,
}
use br_jobs_runner_kit.Threads.Stream.Close.{
  close_command, Handle, Event, pushes, push_over, closes, close_over, step, run, open_handle,
  pushed, closed, settlement,
}
use br_jobs_runner_kit.Threads.Stream.Close.Sealed.{
  IsSealed, reached, stands_none, lookup-settle, settle_rest, push_with-cases, step-IsSealed,
}

-- A closing that was lost or is confirmed, under its number.
abbrev pub is_over : Option Closing → Bool
is_over (some lost) = true
is_over (some confirmed) = true
is_over _ = false

-- The stream takes no chunk any more: it broke, or the closing is over.
unfoldable pub is_ended : Core → ℕ → Bool
is_ended core id = core.flags.broken || is_over (lookup id core.flags.closings)

is_ended-judge : (core : Core) (id : ℕ) → is_ended core id ≡ true → judge_chunk core ≢ ok tt
unfolding judge_chunk is_ended
is_ended-judge core id h e = elim (Option-cases (lookup id core.flags.closings)) [
  | inl q ↦ ground arith
  | inr (c, q) ↦ ground (arith, stands_none core.flags.closings id c)
]

-- One event behind the end of the stream.
abbrev IsFrozen : Handle → Handle → ℕ → Type 0
IsFrozen h k id = (is_ended k.core id ≡ true) × (k.published ≡ h.published)

pushes-IsFrozen :
    (lib : Library) (h : Handle) (build : Result Chunk) (id : ℕ)
    → is_ended h.core id ≡ true
    → IsFrozen h (step lib h (pushes build)) id
unfolding step push_begins pushed
pushes-IsFrozen lib h build id d =
    if_branches (λ k. IsFrozen h k id) h.pushing (λ e. (d, refl))
      λ e. elim (push_with-cases h.core (judge_chunk h.core) build) [
        | inl (x, q) ↦ subst (λ r. IsFrozen h (pushed h r) id) (sym q) (d, refl)
        | inr (chunk, judged, q) ↦ elim (is_ended-judge h.core id d judged) [ ]
      ]

push_over-IsFrozen :
    (lib : Library) (h : Handle) (how : Published) (id : ℕ)
    → is_ended h.core id ≡ true
    → IsFrozen h (step lib h (push_over how)) id
unfolding step push_ends is_ended Stream.break_handle
push_over-IsFrozen lib h Stream.taken id d = ground arith
push_over-IsFrozen lib h _ id d = ground arith

closes-IsFrozen :
    (lib : Library) (h : Handle) (made : Result (Option StreamSeal × Command)) (id : ℕ)
    → IsSealed lib h
    → is_ended h.core id ≡ true
    → IsFrozen h (closed h made) id
unfolding closed is_ended begin_closing
closes-IsFrozen lib h (fail e) id i d = (d, refl)
closes-IsFrozen lib h (ok (seal, command)) id i d = (
  elim (Option-cases (lookup id h.core.flags.closings)) [
    | inl q ↦ ground arith
    | inr (c, q) ↦ ground (
      arith,
      i.fresh id c,
      lookup-put id h.core.flags.next_closing Stream.waiting h.core.flags.closings,
    )
  ],
  refl,
)

close_over-IsFrozen :
    (lib : Library) (h : Handle) (j : ℕ) (end : Option (Result (Unit {0}))) (id : ℕ)
    → IsSealed lib h
    → is_ended h.core id ≡ true
    → IsFrozen h (step lib h (close_over j end)) id
unfolding step is_ended
close_over-IsFrozen lib h j end id i d =
    if_branches (λ k. IsFrozen h k id) (contains j h.guards)
      (λ e. (
        ground (
          arith,
          i.awaited j,
          lookup-settle h.core j id (settlement end),
          settle_rest h.core j (settlement end),
        ),
        refl,
      ))
      λ e. (d, refl)

step-IsFrozen :
    (lib : Library) (h : Handle) (e : Event) (id : ℕ)
    → IsSealed lib h
    → is_ended h.core id ≡ true
    → IsFrozen h (step lib h e) id
unfolding step
step-IsFrozen lib h (pushes build) id i d = pushes-IsFrozen lib h build id d
step-IsFrozen lib h (push_over how) id i d = push_over-IsFrozen lib h how id d
step-IsFrozen lib h (closes c) id i d =
    if_branches (λ k. IsFrozen h k id) h.pushing (λ e. (d, refl))
      λ e. closes-IsFrozen lib h (close_command lib h.core c) id i d
step-IsFrozen lib h (close_over j end) id i d = close_over-IsFrozen lib h j end id i d

stays-IsFrozen :
    (lib : Library) (es : List Event) (h : Handle) (id : ℕ)
    → IsSealed lib h
    → is_ended h.core id ≡ true
    → IsFrozen h (run lib h es) id
unfolding run
stays-IsFrozen lib [] h id i d = (d, refl)
stays-IsFrozen lib (e ∷ es) h id i d =
    let f = step-IsFrozen lib h e id i d in
    let g = stays-IsFrozen lib es (step lib h e) id (step-IsSealed lib h e i) f.0 in
    (g.0, g.1 ∙ f.1)

-- Once a stream broke, or one of its closings was lost or is confirmed, no more chunk is ever handed
-- over to the bus, whatever writes and closings follow, and every later write is refused. The
-- command of a closing may still be sent.
pub run-frozen :
    (lib : Library) (message_id : ℕ) (before after : List Event) (id : ℕ)
    → is_ended (run lib (open_handle message_id) before).core id ≡ true
    → let h = run lib (open_handle message_id) before in
      ((run lib h after).published ≡ h.published) × (judge_chunk (run lib h after).core ≢ ok tt)
run-frozen lib message_id before after id d =
    let h = run lib (open_handle message_id) before in
    let f = stays-IsFrozen lib after h id (reached lib message_id before) d in
    (f.1, is_ended-judge (run lib h after).core id f.0)
