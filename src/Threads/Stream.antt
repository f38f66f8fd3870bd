-- ===== src/Threads/Stream.antt =====
-- crates/br-runner-threads/src/stream/shared.rs, stream/writes.rs and client/close.rs: the stream of
-- the chunks of one message. The gate is an async mutex: `push` holds it until the bus has answered,
-- and `close_message` until its command is made. So each of the two is cut at the await behind: what
-- it does first, and what it does with the answer. The answers are arguments.
pub mod Close
use br_jobs_runner_kit.Prelude.{
  ℕ, ◌+◌, Bool, true, false, not, ◌&&◌, ◌||◌, List, [], ◌∷◌, ◌++◌, Option, none, some, any, nat_eq,
  nat_beq, put, delete, if◌then◌else◌, length,
}
use br_jobs_runner_kit.Threads.Error.{
  invalid_input, stream_broken, stream_closed, Result, ok, fail, ◌>>=◌, unless_fails,
}
use br_jobs_runner_kit.Threads.Wire.{Library, Chunk, Command, reason, closing}

pub data Closing : Type 0 where
  waiting refused lost confirmed : Closing

pub record Flags : Type 0 where
  pub broken : Bool
  pub closings : List (ℕ × Closing)
  pub next_closing : ℕ

-- `chunks` is what the gate guards. The backend and the wait are arguments of the answers.
pub record Core : Type 0 where
  pub message_id : ℕ
  pub chunks : List Chunk
  pub flags : Flags

unfoldable pub new : ℕ → Core
new message_id = record {
  message_id = message_id;
  chunks = [];
  flags = record { broken = false; closings = []; next_closing = 0 };
}

abbrev pub is_confirmed : ℕ × Closing → Bool
is_confirmed (id, confirmed) = true
is_confirmed _ = false

abbrev pub not_refused : ℕ × Closing → Bool
not_refused (id, refused) = false
not_refused _ = true

-- `Core::confirmed`.
unfoldable pub any_confirmed : Flags → Bool
any_confirmed flags = any is_confirmed flags.closings

unfoldable pub judge_chunk : Core → Result (Unit {0})
unfolding any_confirmed
judge_chunk core =
    if any_confirmed core.flags
    then fail stream_closed
    else if core.flags.broken
    then fail stream_broken
    else if any not_refused core.flags.closings
    then fail stream_closed
    else ok tt

unfoldable pub judge_closing : Core → Bool → Result (Unit {0})
unfolding any_confirmed
judge_closing core sealed =
    if any_confirmed core.flags
    then fail stream_closed
    else if sealed && core.flags.broken
    then fail stream_broken
    else ok tt

unfoldable pub healthy : Core → Bool
healthy core = not core.flags.broken && not (any not_refused core.flags.closings)

unfoldable pub break_handle : Core → Core
break_handle core = record core { flags = record core.flags { broken = true } }

-- `push` behind the judgement and the chunk that was built.
unfoldable pub push_with : Core → Result (Unit {0}) → Result Chunk → Core × Result (ℕ × Chunk)
push_with core (fail e) build = (core, fail e)
push_with core (ok u) (fail e) = (core, fail e)
push_with core (ok u) (ok chunk) =
    (record core { chunks = core.chunks ++ chunk ∷ [] }, ok (length core.chunks, chunk))

-- `push` up to the call of the backend: an error, or the number and the chunk that it hands over.
unfoldable pub push_begins : Core → Result Chunk → Core × Result (ℕ × Chunk)
unfolding push_with
push_begins core build = push_with core (judge_chunk core) build

-- What comes of the call: the bus took the chunk, it did not, or the future of `push` was dropped.
pub data Published : Type 0 where
  taken not_taken dropped : Published

-- The rest of `push`, and `BreakOnDrop`.
unfoldable pub push_ends : Core → Published → Core × Result (Unit {0})
unfolding break_handle
push_ends core taken = (core, ok tt)
push_ends core _ = (break_handle core, fail stream_broken)

-- `begin_closing`: the new state, and the number of the guard.
unfoldable pub begin_closing : Core → Core × ℕ
begin_closing core =
    let id = core.flags.next_closing in
    (
      record core {
        flags = record core.flags {
          closings = put id waiting core.flags.closings;
          next_closing = id + 1;
        };
      },
      id,
    )

unfoldable pub settle : Core → ℕ → Option Closing → Core
settle core id (some outcome) = record core {
  flags = record core.flags { closings = put id outcome core.flags.closings };
}
settle core id none = record core {
  flags = record core.flags { closings = delete id core.flags.closings };
}

-- `delta_chunk` and `entry_chunk` with the conversion of the contract's crate done.
unfoldable pub delta_chunk : ℕ → ℕ → Result Chunk → Result Chunk
delta_chunk message turn converted =
    if nat_beq turn message then converted else fail (invalid_input "a delta names another AI turn")

pub data EntryKind : Type 0 where
  model_response turn_closure other : EntryKind

unfoldable pub entry_chunk : EntryKind → Result Chunk → Result Chunk
entry_chunk other converted = converted
entry_chunk _ converted =
    fail (invalid_input "an entry chunk is neither a model response nor a closure")
