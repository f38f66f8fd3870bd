-- ===== src/Threads/Turns/Ordered.antt =====
-- The closings, and the calls one behind the other, against the order of the items of a message.
use br_jobs_runner_kit.Prelude.{
  ◌||◌, ℕ, ◌≡◌, refl, sym, subst, ◌∙◌, Bool, true, false, not, ◌&&◌, contains, List, [], ◌∷◌,
  Option, none, some, nat_eq, nat_beq, nat_beq_iff, lookup, lookup-put, arith, inl, inr, Bool-cases,
  if_branches,
}
use br_jobs_runner_kit.Threads.Closing.{ClosureKind, is_completed}
use br_jobs_runner_kit.Threads.Error.{Result, Result-cases, ok, fail}
use br_jobs_runner_kit.Threads.Wire.{
  kind_of, ClosureReason, ClosureReason, Library, Chunk, StreamSeal, Command, CloseParts, seal_of,
  closing, closing_body, seal_if, carries_content,
}
use br_jobs_runner_kit.Threads.Queue.{Item, ItemKind, Payload, command, numbered_chunk}
use br_jobs_runner_kit.Threads.Queue
use br_jobs_runner_kit.Threads.Turns.{
  WriteContext, Mem, TurnState, Called, AiTurnRef, then_call, then_after, ensure_turn, push_chunk,
  command_item,
}
use br_jobs_runner_kit.Threads.Turns.Calls
use br_jobs_runner_kit.Threads.Turns.Calls.{
  close_known, input_item, turn_command, close_with, close_state, close_turn, shut, closed_state,
  annotate_state, add_annotation, entry_into_turn, add_input_turn, Call, call, calls,
}
use br_jobs_runner_kit.Threads.Turns.Protocol.{
  part_by, part_of, seal_in, Phase, over, open_with, fits, phase_step, closing_part, on_part,
  follow, follow-append, phase_of, Follows, hands-Follows, ensure_state-Follows, push_state-Follows,
}

closing-seal_in :
    (lib : Library) (parts : CloseParts) (c : Command)
    → closing lib parts ≡ ok c
    → seal_in c.body ≡ parts.seal
unfolding closing closing_body seal_in
closing-seal_in lib parts c h = ground arith

fits_own :
    (lib : Library) (chunks : List Chunk) (seal : StreamSeal)
    → seal_of lib chunks ≡ ok seal
    → fits (seal_of lib chunks) seal ≡ true
unfolding fits
fits_own lib chunks seal h = ground (arith, h)

seal_if-fits :
    (lib : Library) (carried : Bool) (chunks : List Chunk) (seal : Option StreamSeal)
    → seal_if lib carried chunks ≡ ok seal
    → phase_step lib (open_with chunks) (closing_part seal) ≡ some over
unfolding seal_if phase_step
seal_if-fits lib carried chunks none h = refl
seal_if-fits lib false chunks (some s) h = cc
seal_if-fits lib true chunks (some s) h = elim (Result-cases (seal_of lib chunks)) [
  | inl (e, q) ↦ absurd (ground arith)
  | inr (own, q) ↦ ground (arith, fits_own lib chunks s)
]

-- The seal of a command that `close_turn` makes is that of the chunks, if it has one.
turn_command-seal :
    (lib : Library) (thread : ℕ) (turn : AiTurnRef) (reason : ClosureReason) (kind : ClosureKind)
    (ctx : WriteContext) (broken : Bool) (id : ℕ) (chunks : List Chunk) (c : Command)
    → turn_command lib thread turn reason kind ctx broken id chunks ≡ ok c
    → phase_step lib (open_with chunks) (closing_part (seal_in c.body)) ≡ some over
unfolding turn_command seal_if
turn_command-seal lib thread turn reason kind ctx broken id chunks c h =
    elim (Result-cases
      (seal_if lib (carries_content chunks && (is_completed kind || not broken)) chunks)) [
        | inl (e, q) ↦ absurd (ground arith)
        | inr (seal, q) ↦
            let parts : CloseParts = record {
              command_id = id;
              thread_id = thread;
              message_id = turn.id;
              reason = reason;
              seal = seal;
              acting_user_id = ctx.acting_user_id;
            } in
            let carried = closing-seal_in lib parts c in
            let same : seal_in c.body ≡ seal = ground (arith, carried) in
            subst (λ s. phase_step lib (open_with chunks) (closing_part s) ≡ some over) (sym same)
              (seal_if-fits lib _ chunks seal q)
      ]

turn_command-unsealed :
    (lib : Library) (thread : ℕ) (turn : AiTurnRef) (reason : ClosureReason) (kind : ClosureKind)
    (ctx : WriteContext) (broken : Bool) (id : ℕ) (c : Command)
    → turn_command lib thread turn reason kind ctx broken id [] ≡ ok c
    → seal_in c.body ≡ none
unfolding turn_command seal_if carries_content
turn_command-unsealed lib thread turn reason kind ctx broken id c h =
    let parts : CloseParts = record {
      command_id = id;
      thread_id = thread;
      message_id = turn.id;
      reason = reason;
      seal = none;
      acting_user_id = ctx.acting_user_id;
    } in
    let unsealed = closing-seal_in lib parts c in ground (arith, unsealed)

unsealed_closes :
    (lib : Library) (c : Command)
    → seal_in c.body ≡ none
    → phase_step lib (phase_of none) (closing_part (seal_in c.body)) ≡ some over
unfolding phase_step phase_of
unsealed_closes lib c h = rw h refl

open_closes :
    (lib : Library) (state : TurnState) (c : Command)
    → state.closed ≡ false
    → phase_step lib (open_with state.chunks) (closing_part (seal_in c.body)) ≡ some over
    → phase_step lib (phase_of (some state)) (closing_part (seal_in c.body)) ≡ some over
unfolding phase_of
open_closes lib state c q h = rw q h

then_after-Follows :
    (lib : Library) (message : ℕ) (answer : Result (Unit {0})) (mem : Mem) (first : Called)
    (next : Mem → Called)
    → Follows lib message mem first
    → ((m : Mem) → Follows lib message m (next m))
    → Follows lib message mem (then_after answer first next)
unfolding then_after
then_after-Follows lib message (fail e) mem first next f n = f
then_after-Follows lib message (ok u) mem first next f n =
    follow-append lib message _ _ first.accepted (next first.mem).accepted f ∙ n first.mem

module _ (lib : Library) (message : ℕ) where
  closed_state-phase_of :
      (agent : ℕ) (state : Option TurnState) → phase_of (some (closed_state agent state)) ≡ over
  unfolding closed_state phase_of
  closed_state-phase_of agent none = refl
  closed_state-phase_of agent (some state) = refl

  shut-follows :
      (thread : ℕ) (mem : Mem) (turn : AiTurnRef) (state : Option TurnState) (c : Command)
      → lookup turn.id mem.turns ≡ state
      → phase_step lib (phase_of state) (closing_part (seal_in c.body)) ≡ some over
      → on_part lib
          (phase_of (lookup message mem.turns))
          (part_of message (command_item thread c turn.agent turn.id [] Queue.closing))
        ≡ some (phase_of (lookup message (shut mem turn state).turns))
  unfolding on_part part_of part_by command_item shut
  shut-follows thread mem turn state c l fit = elim (Bool-cases (nat_beq turn.id message)) [
    | inl b ↦ ground (
      arith,
      nat_beq_iff turn.id message,
      closed_state-phase_of turn.agent state,
      lookup-put message turn.id (closed_state turn.agent state) mem.turns,
    )
    | inr b ↦ ground (
      arith,
      nat_beq_iff turn.id message,
      lookup-put message turn.id (closed_state turn.agent state) mem.turns,
    )
  ]

  close_with-Follows :
      (accept : Item → Result (Unit {0})) (thread : ℕ) (mem : Mem) (turn : AiTurnRef)
      (state : Option TurnState) (made : Result Command)
      → lookup turn.id mem.turns ≡ state
      → ((c : Command)
          → made ≡ ok c
          → phase_step lib (phase_of state) (closing_part (seal_in c.body)) ≡ some over)
      → Follows lib message mem (close_with accept thread mem turn state made)
  unfolding close_with follow
  close_with-Follows accept thread mem turn state (fail e) l fit = refl
  close_with-Follows accept thread mem turn state (ok c) l fit =
      hands-Follows lib message accept mem _ _ (shut-follows thread mem turn state c l (fit c refl))

  close_state-Follows :
      (accept : Item → Result (Unit {0})) (thread : ℕ) (mem : Mem) (turn : AiTurnRef)
      (reason : ClosureReason) (kind : ClosureKind) (ctx : WriteContext) (broken : Bool) (id : ℕ)
      (state : Option TurnState)
      → lookup turn.id mem.turns ≡ state
      → Follows lib message mem
          (close_state accept lib thread mem turn reason kind ctx broken id state)
  unfolding close_state follow
  close_state-Follows accept thread mem turn reason kind ctx broken id none l =
      close_with-Follows accept thread mem turn none _ l λ c h.
        unsealed_closes lib c (turn_command-unsealed lib thread turn reason kind ctx broken id c h)
  close_state-Follows accept thread mem turn reason kind ctx broken id (some state) l =
      if_branches (Follows lib message mem) state.closed (λ q. refl)
        λ q. close_with-Follows accept thread mem turn (some state) _ l λ c h.
          open_closes lib state c q
            (turn_command-seal lib thread turn reason kind ctx broken id state.chunks c h)

  then_call-Follows :
      (mem : Mem) (first : Called) (next : Mem → Called)
      → Follows lib message mem first
      → ((m : Mem) → Follows lib message m (next m))
      → Follows lib message mem (then_call first next)
  unfolding then_call
  then_call-Follows mem first next f n =
      then_after-Follows lib message first.answer mem first next f n

close_known-Follows :
    (lib : Library) (message : ℕ) (accept : Item → Result (Unit {0})) (thread : ℕ) (mem : Mem)
    (turn : AiTurnRef) (reason : ClosureReason) (ctx : WriteContext) (broken : Bool) (id : ℕ)
    (kind : Result ClosureKind)
    → Follows lib message mem (close_known accept lib thread mem turn reason ctx broken id kind)
unfolding close_known follow
close_known-Follows lib message accept thread mem turn reason ctx broken id (fail e) = refl
close_known-Follows lib message accept thread mem turn reason ctx broken id (ok kind) =
    close_state-Follows lib message accept thread mem turn reason kind ctx broken id _ refl

annotate-Follows :
    (lib : Library) (message thread : ℕ) (accept : Item → Result (Unit {0})) (mem : Mem)
    (m entry : ℕ) (chunk : Chunk) (id : ℕ) (state : Option TurnState)
    → Follows lib message mem (annotate_state accept thread mem m entry chunk id state)
unfolding annotate_state follow push_chunk
annotate-Follows lib message thread accept mem m entry chunk id none = refl
annotate-Follows lib message thread accept mem m entry chunk id (some state) =
    if_branches (Follows lib message mem) state.closed (λ q. refl)
      λ q.
        if_branches (Follows lib message mem) (not (contains entry state.entries)) (λ r. refl)
          λ r. push_state-Follows lib message accept thread mem m [] chunk id _ refl

whole-part :
    (lib : Library) (message : ℕ) (phase : Phase) (item : Item)
    → item.kind ≡ Queue.whole_message
    → on_part lib phase (part_of message item) ≡ some phase
unfolding on_part part_of part_by
whole-part lib message phase item h = ground arith

-- The calls on a thread, one by one.
call-Follows :
    (lib : Library) (message thread : ℕ) (accept : Item → Result (Unit {0})) (mem : Mem) (c : Call)
    → Follows lib message mem (call accept lib thread mem c)
unfolding call ensure_turn push_chunk close_turn entry_into_turn add_annotation add_input_turn
    follow input_item command_item
call-Follows lib message thread accept mem (Calls.opens turn ctx id) =
    ensure_state-Follows lib message accept thread mem turn ctx id _ refl
call-Follows lib message thread accept mem (Calls.adds_entry turn ctx entry chunk first id) =
    then_call-Follows lib message mem _ _
      (ensure_state-Follows lib message accept thread mem turn ctx first _ refl)
      λ m. push_state-Follows lib message accept thread m turn.id (entry ∷ []) chunk id _ refl
call-Follows lib message thread accept mem (Calls.sends_chunk m entries chunk id) =
    push_state-Follows lib message accept thread mem m entries chunk id _ refl
call-Follows lib message thread accept mem (Calls.annotates m entry chunk id) =
    annotate-Follows lib message thread accept mem m entry chunk id (lookup m mem.turns)
call-Follows lib message thread accept mem (Calls.closes turn reason ctx broken id) =
    close_known-Follows lib message accept thread mem turn reason ctx broken id (kind_of reason)
call-Follows lib message thread accept mem (Calls.adds_input m entries body ctx id) =
    hands-Follows lib message accept mem _ (input_item thread mem m entries body ctx id)
      (whole-part lib message _ (input_item thread mem m entries body ctx id) refl)
call-Follows lib message thread accept mem (Calls.reads tip) = refl

-- Whatever is called on a thread, in any order and with any answers of the queue: the items accepted
-- of each message come in the order that `follow` describes, and the memory of the thread knows how
-- far it is. So a turn is opened before its chunks and its closing, its chunks are numbered from zero
-- on without a gap, a seal is that of all the chunks accepted, and nothing comes behind a closing.
pub calls-follow :
    (lib : Library) (message thread : ℕ) (mem : Mem) (cs : List ((Item → Result (Unit {0})) × Call))
    → follow lib message (phase_of (lookup message mem.turns)) (calls lib thread mem cs).1
      ≡ some (phase_of (lookup message (calls lib thread mem cs).0.turns))
unfolding calls follow
calls-follow lib message thread mem [] = refl
calls-follow lib message thread mem ((accept, c) ∷ cs) =
    let first = call accept lib thread mem c in
    follow-append lib message _ _ first.accepted (calls lib thread first.mem cs).1
      (call-Follows lib message thread accept mem c)
    ∙ calls-follow lib message thread first.mem cs
