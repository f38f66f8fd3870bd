-- ===== src/Kit/CancelFeed.antt =====
-- crates/br-jobs-runner-kit/src/transport/cancel.rs: the watch of the cancel bucket. What the bucket
-- does is a list of happenings; `none` is a key that is no run's id.
pub mod Listen
use br_jobs_runner_kit.Core.Cancel.{apply_delete, apply_put, replace_with_replay, CancelSet}
use br_jobs_runner_kit.Prelude.{ℕ, Bool, true, false, List, [], ◌∷◌, Option, none, some, nat_eq}
use br_jobs_runner_kit.Core.Cancel
use br_jobs_runner_kit.Kit.RunLoop.{CancelEvent, cancelled, cleared, reset}

pub data Operation : Type 0 where
  put delete purge : Operation

pub data Happening : Type 0 where
  entry : Option ℕ → Operation → Happening
  errors ends : Happening
  opens refuses : Happening

abbrev event_of : ℕ → Operation → CancelEvent
event_of r put = cancelled r
event_of r delete = cleared r
event_of r purge = cleared r

-- One round of the loop in `next`: whether the watch stands afterwards, and what is returned. An
-- open watch yields entries and its end; a closed one is opened, or the opening is refused.
unfoldable pub next_round : Bool → Happening → Bool × Option CancelEvent
next_round true (entry none operation) = (true, none)
next_round true (entry (some r) operation) = (true, some (event_of r operation))
next_round true errors = (false, none)
next_round true ends = (false, none)
next_round true _ = (true, none)
next_round false opens = (true, some reset)
next_round false _ = (false, none)

abbrev found :
    Bool × Option CancelEvent
    → List Happening
    → Option (CancelEvent × Bool × List Happening)
    → Option (CancelEvent × Bool × List Happening)
found (watch, some event) rest later = some (event, watch, rest)
found (watch, none) rest later = later

-- `next` over what is still to happen: its event, the watch, and what happens behind it; `none`
-- while it still waits.
unfoldable pub next : Bool → List Happening → Option (CancelEvent × Bool × List Happening)
unfolding next_round
next watch [] = none
next watch (h ∷ hs) = found (next_round watch h) hs (next (next_round watch h).0 hs)

abbrev pub hear : CancelSet → Option CancelEvent → CancelSet
hear s none = s
hear s (some reset) = replace_with_replay s []
hear s (some (cancelled r)) = apply_put s r
hear s (some (cleared r)) = apply_delete s r

-- The loop's cancel set over the calls of `next` that these happenings allow.
unfoldable pub listen : CancelSet → Bool → List Happening → CancelSet
unfolding next_round
listen s watch [] = s
listen s watch (h ∷ hs) = listen (hear s (next_round watch h).1) (next_round watch h).0 hs
