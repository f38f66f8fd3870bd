-- ===== src/Threads/Stream/Close.antt =====
-- crates/br-runner-threads/src/client/close.rs: `close_message` with a handle, and the handle as a
-- step machine: writes and closings that run at the same time, in any interleaving.
pub mod Sealed
pub mod Commands
pub mod Frozen
use br_jobs_runner_kit.Prelude.{
  ◌==◌, ℕ, Bool, true, false, not, ◌&&◌, ◌||◌, List, [], ◌∷◌, ◌++◌, Option, none, some, nat_eq,
  contains, remove, put, if◌then◌else◌,
}
use br_jobs_runner_kit.Threads.Error.{
  invalid_input, unavailable, refused, Result, ok, fail, ◌>>=◌, unless_fails,
}
use br_jobs_runner_kit.Threads.Closing.{is_completed}
use br_jobs_runner_kit.Threads.Closing
use br_jobs_runner_kit.Threads.Wire.{
  Library, Chunk, StreamSeal, Command, reason, closing, carries_content, seal_if,
}
use br_jobs_runner_kit.Threads.Stream.{
  Core, judge_closing, healthy, begin_closing, settle, push_begins, push_ends, Published,
}
use br_jobs_runner_kit.Threads.Stream

-- The command of a closing without a handle.
unfoldable pub close_unhandled : Library → Closing.Closing → Result Command
close_unhandled lib c = do
  why ← reason lib c.kind c.detail
  _ ←
      unless_fails (is_completed c.kind)
        (invalid_input "a Completed closing needs the handle of the stream")
  closing lib (record {
    command_id = c.command_id;
    thread_id = c.thread_id;
    message_id = c.message_id;
    reason = why;
    seal = none;
    acting_user_id = c.acting_user_id;
  })

-- Whether the closing is to carry a seal.
unfoldable pub sealed : Core → Closing.Closing → Bool
unfolding healthy
sealed core c = carries_content core.chunks && (is_completed c.kind || healthy core)

-- The command, and its seal, with the gate held: all that comes before `begin_closing`.
unfoldable pub close_command :
    Library → Core → Closing.Closing → Result (Option StreamSeal × Command)
unfolding sealed
close_command lib core c = do
  why ← reason lib c.kind c.detail
  _ ←
      unless_fails (not (core.message_id == c.message_id))
        (invalid_input "the handle belongs to another message")
  _ ← judge_closing core (is_completed c.kind)
  _ ←
      unless_fails (is_completed c.kind && not (carries_content core.chunks))
        (invalid_input "a Completed closing needs at least one chunk to seal")
  seal ← seal_if lib (sealed core c) core.chunks
  command ← closing lib (record {
    command_id = c.command_id;
    thread_id = c.thread_id;
    message_id = c.message_id;
    reason = why;
    seal = seal;
    acting_user_id = c.acting_user_id;
  })
  ok (seal, command)

-- How the call of the service ends: `none` where the future of `close_message` is dropped.
unfoldable pub settlement : Option (Result (Unit {0})) → Option Stream.Closing
settlement (some (ok u)) = some Stream.confirmed
settlement (some (fail (unavailable f))) = none
settlement (some (fail (refused r))) = some Stream.refused
settlement (some (fail e)) = some Stream.lost
settlement none = some Stream.lost

-- A handle in use. `pushing` tells whether a `push` holds the gate, `guards` are the closings whose
-- call has not ended; `published` and `seals` keep what was handed over to the backend.
pub record Handle : Type 0 where
  pub core : Core
  pub pushing : Bool
  pub guards : List ℕ
  pub published : List (ℕ × Chunk)
  pub seals : List (ℕ × Option StreamSeal)

unfoldable pub open_handle : ℕ → Handle
open_handle message_id = record {
  core = Stream.new message_id;
  pushing = false;
  guards = [];
  published = [];
  seals = [];
}

pub data Event : Type 0 where
  pushes : Result Chunk → Event
  push_over : Published → Event
  closes : Closing.Closing → Event
  close_over : ℕ → Option (Result (Unit {0})) → Event

-- The first half of a `push` that has got the gate.
unfoldable pub pushed : Handle → Core × Result (ℕ × Chunk) → Handle
pushed h (core, fail e) = record h { core = core }
pushed h (core, ok sent) = record h {
  core = core;
  pushing = true;
  published = h.published ++ sent ∷ [];
}

-- `begin_closing` and the call.
unfoldable pub closed : Handle → Result (Option StreamSeal × Command) → Handle
closed h (fail e) = h
closed h (ok (seal, command)) =
    let begun = begin_closing h.core in
    record h { core = begun.0; guards = begun.1 ∷ h.guards; seals = put begun.1 seal h.seals }

-- One event. What waits for the gate does nothing before it gets it.
unfoldable pub step : Library → Handle → Event → Handle
unfolding pushed closed
step lib h (pushes build) = if h.pushing then h else pushed h (push_begins h.core build)
step lib h (push_over how) =
    if h.pushing then record h { core = (push_ends h.core how).0; pushing = false } else h
step lib h (closes c) = if h.pushing then h else closed h (close_command lib h.core c)
step lib h (close_over id end) =
    if contains id h.guards
    then record h { core = settle h.core id (settlement end); guards = remove id h.guards }
    else h

unfoldable pub run : Library → Handle → List Event → Handle
unfolding step
run lib h [] = h
run lib h (e ∷ es) = run lib (step lib h e) es
