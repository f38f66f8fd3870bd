-- ===== src/Threads/Turns/Calls.antt =====
-- crates/br-runner-threads/src/adapter/ops/closing.rs, entries.rs and annotation.rs: the calls that
-- close a turn, add an entry or an annotation to it, or add an input turn.

use br_jobs_runner_kit.Prelude.{
  ℕ, Bool, true, not, ◌&&◌, ◌||◌, List, [], ◌∷◌, ◌++◌, Option, none, some, nat_eq, lookup, put,
  contains, if◌then◌else◌,
}
use br_jobs_runner_kit.Threads.Error.{invalid_input, Result, ok, fail, ◌>>=◌, unless_fails}
use br_jobs_runner_kit.Threads.Closing.{is_completed, ClosureKind}
use br_jobs_runner_kit.Threads.Wire.{
  kind_of, Library, Chunk, ClosureReason, Command, whole, store_command, closing, carries_content,
  seal_if,
}
use br_jobs_runner_kit.Threads.Queue.{Item}
use br_jobs_runner_kit.Threads.Queue
use br_jobs_runner_kit.Threads.Turns.{
  Mem, TurnState, Called, AiTurnRef, WriteContext, refuses, hands, then_call, closed_turn,
  command_item, parts_of, ensure_turn, push_chunk,
}

-- The command of `close_turn`; `broken` is whether a chunk of the message was not delivered.
unfoldable pub turn_command :
    Library
    → ℕ
    → AiTurnRef
    → ClosureReason
    → ClosureKind
    → WriteContext
    → Bool
    → ℕ
    → List Chunk
    → Result Command
turn_command lib thread turn reason kind ctx broken id chunks = do
  _ ←
      unless_fails (is_completed kind && not (carries_content chunks))
        (invalid_input "a Completed closing for a turn that holds no state or no chunk")
  seal ← seal_if lib (carries_content chunks && (is_completed kind || not broken)) chunks
  closing lib (record {
    command_id = id;
    thread_id = thread;
    message_id = turn.id;
    reason = reason;
    seal = seal;
    acting_user_id = ctx.acting_user_id;
  })

-- The memory behind the closing: the state of the turn, or a new one, is closed.
unfoldable pub closed_state : ℕ → Option TurnState → TurnState
closed_state agent none = record { agent = agent; chunks = []; entries = []; closed = true }
closed_state agent (some state) = record state { closed = true }

unfoldable pub shut : Mem → AiTurnRef → Option TurnState → Mem
unfolding closed_state
shut mem turn state = record mem { turns = put turn.id (closed_state turn.agent state) mem.turns }

unfoldable pub close_with :
    (Item → Result (Unit {0})) → ℕ → Mem → AiTurnRef → Option TurnState → Result Command → Called
unfolding hands command_item shut
close_with accept thread mem turn state (fail e) = refuses mem e
close_with accept thread mem turn state (ok c) =
    hands accept mem (command_item thread c turn.agent turn.id [] Queue.closing)
      (shut mem turn state)

unfoldable pub close_state :
    (Item → Result (Unit {0}))
    → Library
    → ℕ
    → Mem
    → AiTurnRef
    → ClosureReason
    → ClosureKind
    → WriteContext
    → Bool
    → ℕ
    → Option TurnState
    → Called
unfolding turn_command close_with closed_turn
close_state accept lib thread mem turn reason kind ctx broken id none =
    close_with accept thread mem turn none
      (turn_command lib thread turn reason kind ctx broken id [])
close_state accept lib thread mem turn reason kind ctx broken id (some state) =
    if state.closed
    then refuses mem closed_turn
    else close_with accept thread mem turn (some state)
        (turn_command lib thread turn reason kind ctx broken id state.chunks)

unfoldable pub close_known :
    (Item → Result (Unit {0}))
    → Library
    → ℕ
    → Mem
    → AiTurnRef
    → ClosureReason
    → WriteContext
    → Bool
    → ℕ
    → Result ClosureKind
    → Called
unfolding close_state
close_known accept lib thread mem turn reason ctx broken id (fail e) = refuses mem e
close_known accept lib thread mem turn reason ctx broken id (ok kind) =
    close_state accept lib thread mem turn reason kind ctx broken id (lookup turn.id mem.turns)

unfoldable pub close_turn :
    (Item → Result (Unit {0}))
    → Library
    → ℕ
    → Mem
    → AiTurnRef
    → ClosureReason
    → WriteContext
    → Bool
    → ℕ
    → Called
unfolding close_known kind_of
close_turn accept lib thread mem turn reason ctx broken id =
    close_known accept lib thread mem turn reason ctx broken id (kind_of reason)

-- `entry_into_turn`; the ids are those of the opening and of the chunk.
unfoldable pub entry_into_turn :
    (Item → Result (Unit {0})) → ℕ → Mem → AiTurnRef → WriteContext → ℕ → Chunk → ℕ → ℕ → Called
unfolding then_call ensure_turn push_chunk
entry_into_turn accept thread mem turn ctx entry chunk opening_id id =
    then_call (ensure_turn accept thread mem turn ctx opening_id)
      λ after. push_chunk accept thread after turn.id (entry ∷ []) chunk id

unfoldable pub annotate_state :
    (Item → Result (Unit {0})) → ℕ → Mem → ℕ → ℕ → Chunk → ℕ → Option TurnState → Called
unfolding push_chunk closed_turn
annotate_state accept thread mem message entry chunk id none =
    refuses mem (invalid_input "the adapter holds no open state of this turn")
annotate_state accept thread mem message entry chunk id (some state) =
    if state.closed
    then refuses mem closed_turn
    else if not (contains entry state.entries)
    then refuses mem (invalid_input "the entry is not one that this adapter queued into this turn")
    else push_chunk accept thread mem message [] chunk id

-- `add_annotation` with its chunk made.
unfoldable pub add_annotation : (Item → Result (Unit {0})) → ℕ → Mem → ℕ → ℕ → Chunk → ℕ → Called
unfolding annotate_state
add_annotation accept thread mem message entry chunk id =
    annotate_state accept thread mem message entry chunk id (lookup message mem.turns)

-- The item of an input turn: the whole turn is its JSON.
unfoldable pub input_item : ℕ → Mem → ℕ → List ℕ → ℕ → WriteContext → ℕ → Item
unfolding command_item store_command
input_item thread mem message entries body ctx id =
    command_item thread
      (store_command id (parts_of thread message mem ctx)
        (record { agent_id = ctx.agent; author_name = ctx.author; delivery = whole body }))
      ctx.agent message entries Queue.whole_message

unfoldable pub add_input_turn :
    (Item → Result (Unit {0})) → ℕ → Mem → ℕ → List ℕ → ℕ → WriteContext → ℕ → Called
unfolding hands input_item
add_input_turn accept thread mem message entries body ctx id =
    hands accept mem (input_item thread mem message entries body ctx id)
      (record mem { tip = some message })

-- The calls on one thread, and the reads, which set the tip. The chunks are those of responses and
-- the keepalives too. The end of an instance, which forgets its turns, is not among them.
pub data Call : Type 0 where
  opens : AiTurnRef → WriteContext → ℕ → Call
  adds_entry : AiTurnRef → WriteContext → ℕ → Chunk → ℕ → ℕ → Call
  sends_chunk : ℕ → List ℕ → Chunk → ℕ → Call
  annotates : ℕ → ℕ → Chunk → ℕ → Call
  closes : AiTurnRef → ClosureReason → WriteContext → Bool → ℕ → Call
  adds_input : ℕ → List ℕ → ℕ → WriteContext → ℕ → Call
  reads : Option ℕ → Call

unfoldable pub call : (Item → Result (Unit {0})) → Library → ℕ → Mem → Call → Called
unfolding ensure_turn entry_into_turn push_chunk add_annotation close_turn add_input_turn
call accept lib thread mem (opens turn ctx id) = ensure_turn accept thread mem turn ctx id
call accept lib thread mem (adds_entry turn ctx entry chunk first id) =
    entry_into_turn accept thread mem turn ctx entry chunk first id
call accept lib thread mem (sends_chunk message entries chunk id) =
    push_chunk accept thread mem message entries chunk id
call accept lib thread mem (annotates message entry chunk id) =
    add_annotation accept thread mem message entry chunk id
call accept lib thread mem (closes turn reason ctx broken id) =
    close_turn accept lib thread mem turn reason ctx broken id
call accept lib thread mem (adds_input message entries body ctx id) =
    add_input_turn accept thread mem message entries body ctx id
call accept lib thread mem (reads tip) = record {
  mem = record mem { tip = tip };
  accepted = [];
  answer = ok tt;
}

-- The calls on a thread one behind the other, each with its own answers of the queue: the memory and
-- all the items accepted.
unfoldable pub calls :
    Library → ℕ → Mem → List ((Item → Result (Unit {0})) × Call) → Mem × List Item
unfolding call
calls lib thread mem [] = (mem, [])
calls lib thread mem ((accept, c) ∷ cs) =
    let first = call accept lib thread mem c in
    let rest = calls lib thread first.mem cs in (rest.0, first.accepted ++ rest.1)
