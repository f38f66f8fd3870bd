-- ===== src/Threads/Wire.antt =====
-- crates/br-runner-threads/src/closing.rs, wire.rs and ids.rs: the reason of a closing, the seal of
-- a stream, and the command that closes a message. The crates for messages and for the contract of
-- Threads are a record of functions, `Library`; a hash and a JSON value are numbers.
use Prim.Native.String.{String}
use br_jobs_runner_kit.Prelude.{
  ℕ, ◌-◌, Bool, true, false, List, [], ◌∷◌, Option, none, some, nat_beq, if◌then◌else◌, length,
}
use br_jobs_runner_kit.Threads.Error.{invalid_input, Result, ok, fail, ◌>>=◌}
use br_jobs_runner_kit.Threads.Closing.{ClosureKind, is_completed}
use br_jobs_runner_kit.Threads.Closing

-- A chunk of a stream: a keepalive, or content, which is a number here.
pub data Chunk : Type 0 where
  keepalive : Chunk
  content : ℕ → Chunk

pub data ClosureReason : Type 0 where
  completed cancelled interrupted budget_exhausted failed : Option String → ClosureReason
  unknown : ClosureReason

-- A failing function gives the error that the source makes of its failure.
pub record Library : Type 0 where
  pub seal_hash : List Chunk → Result ℕ
  pub is_v7 : ℕ → Bool
  pub with_detail : ClosureReason → String → Result ClosureReason
  pub failed_with : String → Result ClosureReason
  pub json : ClosureReason → Result ℕ

-- `ClosureKind::of`.
unfoldable pub kind_of : ClosureReason → Result ClosureKind
kind_of (completed d) = ok Closing.completed
kind_of (cancelled d) = ok Closing.cancelled
kind_of (interrupted d) = ok Closing.interrupted
kind_of (budget_exhausted d) = ok Closing.budget_exhausted
kind_of (failed d) = ok Closing.failed
kind_of unknown = fail (invalid_input "a closure reason this library does not know")

unfoldable pub bare : ClosureKind → ClosureReason
bare Closing.completed = completed none
bare Closing.cancelled = cancelled none
bare Closing.interrupted = interrupted none
bare Closing.budget_exhausted = budget_exhausted none
bare Closing.failed = failed none

-- `ClosureKind::reason`.
unfoldable pub reason : Library → ClosureKind → Option String → Result ClosureReason
unfolding bare
reason lib Closing.failed none = fail (invalid_input "a Failed closing needs a detail")
reason lib Closing.failed (some detail) = lib.failed_with detail
reason lib kind none = ok (bare kind)
reason lib kind (some detail) = lib.with_detail (bare kind) detail

unfoldable pub require_v7 : Library → ℕ → String → Result ℕ
require_v7 lib id text = if lib.is_v7 id then ok id else fail (invalid_input text)

pub record StreamSeal : Type 0 where
  pub last_seq : ℕ
  pub hash : ℕ

pub record CloseParts : Type 0 where
  pub command_id : ℕ
  pub thread_id : ℕ
  pub message_id : ℕ
  pub reason : ClosureReason
  pub seal : Option StreamSeal
  pub acting_user_id : Option ℕ

-- `CompleteMessageV2` and `FailMessageV2`, with the closure as its JSON.
pub record MessageEnd : Type 0 where
  pub message_id : ℕ
  pub thread_id : ℕ
  pub seal : Option StreamSeal
  pub closure : ℕ
  pub acting_user_id : Option ℕ

pub record StoreParts : Type 0 where
  pub thread_id : ℕ
  pub message_id : ℕ
  pub parent_message_id : Option ℕ
  pub job_id : Option ℕ
  pub acting_user_id : Option ℕ
  pub impersonator_id : Option ℕ

-- How an AI turn is delivered; a whole turn is its JSON.
pub data AiDelivery : Type 0 where
  streaming : AiDelivery
  whole : ℕ → AiDelivery

pub record AiTurn : Type 0 where
  pub agent_id : ℕ
  pub author_name : String
  pub delivery : AiDelivery

-- A new thread is a number.
pub data CommandBody : Type 0 where
  complete fail_message : MessageEnd → CommandBody
  store_message : StoreParts → AiTurn → CommandBody
  create_thread : ℕ → CommandBody

pub record Command : Type 0 where
  pub id : ℕ
  pub body : CommandBody

-- `store`.
unfoldable pub store_command : ℕ → StoreParts → AiTurn → Command
store_command command_id parts turn = record { id = command_id; body = store_message parts turn }

-- The body of a closing of the kind.
unfoldable pub closing_body : ClosureKind → MessageEnd → Result CommandBody
closing_body Closing.completed m = elim m.seal [
  | none ↦ fail (invalid_input "a Completed closing needs a seal")
  | some seal ↦ ok (complete m)
]
closing_body _ m = ok (fail_message m)

unfoldable pub closing : Library → CloseParts → Result Command
unfolding require_v7 kind_of closing_body
closing lib parts = do
  id ← require_v7 lib parts.command_id "a command id is not a UUIDv7"
  kind ← kind_of parts.reason
  closure ← lib.json parts.reason
  body ← closing_body kind (record {
    message_id = parts.message_id;
    thread_id = parts.thread_id;
    seal = parts.seal;
    closure = closure;
    acting_user_id = parts.acting_user_id;
  })
  ok (record { id = id; body = body })

unfoldable pub carries_content : List Chunk → Bool
carries_content [] = false
carries_content (keepalive ∷ chunks) = carries_content chunks
carries_content (content c ∷ chunks) = true

unfoldable pub seal_of : Library → List Chunk → Result StreamSeal
seal_of lib chunks = do
  hash ← lib.seal_hash chunks
  (if nat_beq (length chunks) 0
      then fail (invalid_input "a seal needs at least one chunk")
      else ok (record { last_seq = length chunks - 1; hash = hash }))

-- The seal of a closing, if it has one: `carried` tells whether it should.
unfoldable pub seal_if : Library → Bool → List Chunk → Result (Option StreamSeal)
unfolding seal_of
seal_if lib false chunks = ok none
seal_if lib true chunks = do seal ← seal_of lib chunks; ok (some seal)
