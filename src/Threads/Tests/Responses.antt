-- ===== src/Threads/Tests/Responses.antt =====
-- The theorem on responses of crates/br-runner-threads/src/response at a concrete crate for messages
-- whose draft is the list of the operations on it.
use br_jobs_runner_kit.Prelude.{
  sym, ◌∙◌, arith, ℕ, ◌≡◌, refl, Bool, true, false, ◌&&◌, not, List, [], ◌∷◌, ◌++◌, Option, none,
  some, nat_beq, All,
}
use br_jobs_runner_kit.Threads.Error.{Result, ok}
use br_jobs_runner_kit.Threads.Draft.{
  rest_ops, Messages, ModelResponse, Metadata, ContentBlock, DeltaOp, ResponseDelta,
  response_started, response_completed,
}
use br_jobs_runner_kit.Threads.Response.{Event, sends, pair, run, step, complete}
use br_jobs_runner_kit.Threads.Response.Follows.{Keeps, Tells, SeveringEvent}
use br_jobs_runner_kit.Threads.Response.Faithful.{IsComplete, complete-arrives}

abbrev no_metadata : Metadata
no_metadata = record { usage = none; model = none; provider_response_id = none }

abbrev bare_response : ModelResponse
bare_response = record { id = 7; blocks = []; metadata = no_metadata; ending = 4 }

abbrev started : List DeltaOp → Bool
started [] = false
started (op ∷ ops) = true

-- The response of the draft of a response without blocks, which starts, and then completes.
abbrev response_of : List DeltaOp → Option ModelResponse
response_of (response_started m ∷ response_completed e ∷ []) =
    some (record bare_response { ending = e })
response_of _ = none

abbrev are_bare : List ContentBlock → Option ℕ → Option ℕ → Option ℕ → ℕ → ℕ → Bool
are_bare [] none none none id ending = nat_beq id 7 && nat_beq ending 4
are_bare _ _ _ _ _ _ = false

abbrev is_bare : ModelResponse → Bool
is_bare r =
    are_bare r.blocks r.metadata.usage r.metadata.model r.metadata.provider_response_id r.id
      r.ending

abbrev response_with : List ContentBlock → Option ℕ → Option ℕ → Option ℕ → ℕ → ℕ → ModelResponse
response_with blocks usage model provider id ending = record {
  id = id;
  blocks = blocks;
  metadata = record { usage = usage; model = model; provider_response_id = provider };
  ending = ending;
}

numbers-bare :
    (id ending : ℕ)
    → (nat_beq id 7 && nat_beq ending 4) ≡ true
    → response_with [] none none none id ending ≡ bare_response
numbers-bare id ending h =
    let same_id : id ≡ 7 = ground (arith, h) in
    let same_ending : ending ≡ 4 = ground (arith, h) in rw same_id (rw same_ending refl)

are_bare-bare :
    (blocks : List ContentBlock) (usage model provider : Option ℕ) (id ending : ℕ)
    → are_bare blocks usage model provider id ending ≡ true
    → response_with blocks usage model provider id ending ≡ bare_response
are_bare-bare [] none none none id ending h = numbers-bare id ending h
are_bare-bare [] none none (some p) id ending h = absurd (ground arith)
are_bare-bare [] none (some m) p id ending h = absurd (ground arith)
are_bare-bare [] (some u) m p id ending h = absurd (ground arith)
are_bare-bare (b ∷ bs) u m p id ending h = absurd (ground arith)

is_bare-bare : (r : ModelResponse) → is_bare r ≡ true → r ≡ bare_response
is_bare-bare r h =
    are_bare-bare r.blocks r.metadata.usage r.metadata.model r.metadata.provider_response_id r.id
      r.ending h

abbrev recorded : List DeltaOp → ResponseDelta → List DeltaOp × Result (Unit {0})
recorded ops delta = (ops ++ delta.op ∷ [], ok tt)

abbrev messages : Messages
messages = record {
  Draft = List DeltaOp;
  new_draft = λ turn entry. [];
  turn = λ d. 5;
  entry = λ d. 6;
  unstarted = λ d. not (started d);
  metadata = λ d. no_metadata;
  slots = λ d. [];
  apply = recorded;
  into_response = response_of;
  same = λ r r'. is_bare r && is_bare r';
}

abbrev start_delta : ResponseDelta
start_delta = record { turn = 5; entry = 6; op = response_started no_metadata }

abbrev start_events : List Event
start_events = sends start_delta (ok tt) ∷ []

recorded-Keeps : Keeps messages
recorded-Keeps d delta e h = absurd (ground arith)

both_bare : (a b : Bool) → (a && b) ≡ true → (a ≡ true) × (b ≡ true)
both_bare a b h = (ground (arith, h), ground (arith, h))

messages-Tells : Tells messages
messages-Tells r r' h =
    let both = both_bare (is_bare r) (is_bare r') h in
    is_bare-bare r both.0 ∙ sym (is_bare-bare r' both.1)

start-SeveringEvent : All SeveringEvent start_events
start-SeveringEvent = ((λ e h. absurd (ground arith)), tt)

abbrev takes_all : ℕ → Result (Unit {0})
takes_all k = ok tt

start-completes :
    (complete messages (run messages (pair messages 5 6) start_events) bare_response takes_all).1
    ≡ ok tt
unfolding complete run pair step rest_ops
start-completes = refl

complete-arrives_example :
    IsComplete messages [] bare_response
      (complete messages (run messages (pair messages 5 6) start_events) bare_response takes_all).0
complete-arrives_example =
    complete-arrives messages 5 6 start_events bare_response takes_all recorded-Keeps messages-Tells
      start-SeveringEvent start-completes
