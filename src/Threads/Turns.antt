-- ===== src/Threads/Turns.antt =====
-- crates/br-runner-threads/src/adapter/ops/turn.rs, closing.rs, entries.rs and annotation.rs: the
-- turns of a thread that the adapter writes. Each function stands for one call, which holds the
-- order lock of the thread; `accept` is what the queue answers to an item. The result is the memory
-- of the thread, the items accepted, and the answer to the call. Keepalives and open responses are
-- not part of the memory here.
pub mod Calls
pub mod Protocol
pub mod Ordered
use Prim.Native.String.{String}
use br_jobs_runner_kit.Prelude.{
  ℕ, Bool, false, List, [], ◌∷◌, ◌++◌, Option, none, some, nat_eq, lookup, put, if◌then◌else◌,
  length,
}
use br_jobs_runner_kit.Threads.Error.{Error, invalid_input, stream_closed, Result, ok, fail}
use br_jobs_runner_kit.Threads.Wire.{Chunk, Command, StoreParts, streaming, store_command}
use br_jobs_runner_kit.Threads.Queue.{Item, ItemKind, Payload, command, numbered_chunk}
use br_jobs_runner_kit.Threads.Queue

pub record TurnState : Type 0 where
  pub agent : ℕ
  pub chunks : List Chunk
  pub entries : List ℕ
  pub closed : Bool

pub record Mem : Type 0 where
  pub turns : List (ℕ × TurnState)
  pub tip : Option ℕ

-- What a call hands over to the queue, and how it ends.
pub record Called : Type 0 where
  pub mem : Mem
  pub accepted : List Item
  pub answer : Result (Unit {0})

abbrev pub refuses : Mem → Error → Called
refuses mem e = record { mem = mem; accepted = []; answer = fail e }

abbrev pub agrees : Mem → Called
agrees mem = record { mem = mem; accepted = []; answer = ok tt }

unfoldable pub handed : Result (Unit {0}) → Mem → Item → Mem → Called
handed (fail e) mem item after = refuses mem e
handed (ok u) mem item after = record { mem = after; accepted = item ∷ []; answer = ok tt }

-- The end of a call that hands over one item: the memory changes if the queue accepts it.
unfoldable pub hands : (Item → Result (Unit {0})) → Mem → Item → Mem → Called
unfolding handed
hands accept mem item after = handed (accept item) mem item after

unfoldable pub then_after : Result (Unit {0}) → Called → (Mem → Called) → Called
then_after (fail e) first next = first
then_after (ok u) first next =
    let second = next first.mem in record second { accepted = first.accepted ++ second.accepted }

-- A call behind another one that succeeded.
unfoldable pub then_call : Called → (Mem → Called) → Called
unfolding then_after
then_call first next = then_after first.answer first next

pub record WriteContext : Type 0 where
  pub agent : ℕ
  pub author : String
  pub job_id : Option ℕ
  pub acting_user_id : Option ℕ
  pub impersonator_id : Option ℕ

pub record AiTurnRef : Type 0 where
  pub id : ℕ
  pub agent : ℕ
  pub author : String

unfoldable pub closed_turn : Error
closed_turn = invalid_input "the closing of this turn was already accepted"

unfoldable pub command_item : ℕ → Command → ℕ → ℕ → List ℕ → ItemKind → Item
command_item thread c agent message entries kind = record {
  id = c.id;
  thread = thread;
  agent = agent;
  message = message;
  entries = entries;
  kind = kind;
  payload = command c.body;
}

abbrev pub parts_of : ℕ → ℕ → Mem → WriteContext → StoreParts
parts_of thread message mem ctx = record {
  thread_id = thread;
  message_id = message;
  parent_message_id = mem.tip;
  job_id = ctx.job_id;
  acting_user_id = ctx.acting_user_id;
  impersonator_id = ctx.impersonator_id;
}

-- The item that opens a turn, and the memory behind it.
unfoldable pub opening_item : ℕ → Mem → AiTurnRef → WriteContext → ℕ → Item
unfolding command_item store_command
opening_item thread mem turn ctx id =
    command_item thread
      (store_command id (parts_of thread turn.id mem ctx)
        (record { agent_id = turn.agent; author_name = turn.author; delivery = streaming }))
      turn.agent turn.id [] Queue.opening

unfoldable pub opened : Mem → AiTurnRef → Mem
opened mem turn = record {
  turns =
      put turn.id (record { agent = turn.agent; chunks = []; entries = []; closed = false })
        mem.turns;
  tip = some turn.id;
}

-- `ensure_turn` for what the memory holds of the turn.
unfoldable pub ensure_state :
    (Item → Result (Unit {0})) → ℕ → Mem → AiTurnRef → WriteContext → ℕ → Option TurnState → Called
unfolding hands opening_item opened closed_turn
ensure_state accept thread mem turn ctx id none =
    hands accept mem (opening_item thread mem turn ctx id) (opened mem turn)
ensure_state accept thread mem turn ctx id (some state) =
    if state.closed then refuses mem closed_turn else agrees mem

unfoldable pub ensure_turn :
    (Item → Result (Unit {0})) → ℕ → Mem → AiTurnRef → WriteContext → ℕ → Called
unfolding ensure_state
ensure_turn accept thread mem turn ctx id =
    ensure_state accept thread mem turn ctx id (lookup turn.id mem.turns)

unfoldable pub chunk_item : ℕ → TurnState → ℕ → List ℕ → Chunk → ℕ → Item
chunk_item thread state message entries chunk id = record {
  id = id;
  thread = thread;
  agent = state.agent;
  message = message;
  entries = entries;
  kind = Queue.chunk;
  payload = numbered_chunk (length state.chunks) chunk;
}

unfoldable pub pushed : Mem → TurnState → ℕ → List ℕ → Chunk → Mem
pushed mem state message entries chunk = record mem {
  turns =
      put message
        (record state { chunks = state.chunks ++ chunk ∷ []; entries = entries ++ state.entries })
        mem.turns;
}

-- `push_chunk` for what the memory holds of the turn.
unfoldable pub push_state :
    (Item → Result (Unit {0})) → ℕ → Mem → ℕ → List ℕ → Chunk → ℕ → Option TurnState → Called
unfolding hands chunk_item pushed
push_state accept thread mem message entries chunk id none = refuses mem stream_closed
push_state accept thread mem message entries chunk id (some state) =
    if state.closed
    then refuses mem stream_closed
    else hands accept mem (chunk_item thread state message entries chunk id)
        (pushed mem state message entries chunk)

unfoldable pub push_chunk : (Item → Result (Unit {0})) → ℕ → Mem → ℕ → List ℕ → Chunk → ℕ → Called
unfolding push_state
push_chunk accept thread mem message entries chunk id =
    push_state accept thread mem message entries chunk id (lookup message mem.turns)
