-- ===== src/Threads/Turns/Protocol.antt =====
-- The order in which the items of a message come: an independent description of it, and the calls.
use br_jobs_runner_kit.Prelude.{
  ℕ, ◌≡◌, refl, Bool, false, ◌&&◌, List, [], ◌∷◌, ◌++◌, Option, none, some, nat_eq, nat_beq,
  nat_beq_iff, lookup, lookup-put, arith, inl, inr, Bool-cases, Option-cases, if◌then◌else◌,
  if_branches, length,
}
use br_jobs_runner_kit.Threads.Error.{Result, ok, fail}
use br_jobs_runner_kit.Threads.Wire.{
  Library, Chunk, StreamSeal, CommandBody, complete, fail_message, seal_of,
}
use br_jobs_runner_kit.Threads.Queue.{Item, ItemKind, Payload, command, numbered_chunk}
use br_jobs_runner_kit.Threads.Queue
use br_jobs_runner_kit.Threads.Turns.{
  Mem, TurnState, Called, AiTurnRef, WriteContext, hands, handed, ensure_state, push_state,
  opening_item, chunk_item, opened, pushed,
}

-- What an item is for a message.
pub data Part : Type 0 where
  opening_part : Part
  chunk_part : ℕ → Chunk → Part
  closing_part : Option StreamSeal → Part

unfoldable pub seal_in : CommandBody → Option StreamSeal
seal_in (complete m) = m.seal
seal_in (fail_message m) = m.seal
seal_in body = none

unfoldable pub part_by : ItemKind → Payload → Option Part
unfolding seal_in
part_by Queue.opening payload = some opening_part
part_by Queue.chunk (numbered_chunk seq chunk) = some (chunk_part seq chunk)
part_by Queue.closing (command body) = some (closing_part (seal_in body))
part_by kind payload = none

unfoldable pub part_of : ℕ → Item → Option Part
unfolding part_by
part_of message item = if nat_beq item.message message then part_by item.kind item.payload else none

-- A message before its opening, open with its chunks, or closed.
pub data Phase : Type 0 where
  fresh over : Phase
  open_with : List Chunk → Phase

unfoldable pub fits : Result StreamSeal → StreamSeal → Bool
fits (ok t) s = nat_beq t.last_seq s.last_seq && nat_beq t.hash s.hash
fits (fail e) s = false

-- An opening comes first, the chunks behind it are numbered from zero on, and a closing ends the
-- message, with no seal or with that of all the chunks. A message that was not opened is closed
-- without a seal.
unfoldable pub phase_step : Library → Phase → Part → Option Phase
unfolding fits
phase_step lib fresh opening_part = some (open_with [])
phase_step lib fresh (closing_part none) = some over
phase_step lib (open_with chunks) (chunk_part seq chunk) =
    if nat_beq seq (length chunks) then some (open_with (chunks ++ chunk ∷ [])) else none
phase_step lib (open_with chunks) (closing_part none) = some over
phase_step lib (open_with chunks) (closing_part (some seal)) =
    if fits (seal_of lib chunks) seal then some over else none
phase_step lib phase part = none

unfoldable pub on_part : Library → Phase → Option Part → Option Phase
unfolding phase_step
on_part lib phase none = some phase
on_part lib phase (some part) = phase_step lib phase part

-- Where the items lead a message to, if they come in that order.
unfoldable pub follow : Library → ℕ → Phase → List Item → Option Phase
unfolding on_part part_of
follow lib message phase [] = some phase
follow lib message phase (item ∷ items) = elim (on_part lib phase (part_of message item)) [
  | none ↦ none
  | some next ↦ follow lib message next items
]

-- The phase that the memory of a thread holds for a message.
unfoldable pub phase_of : Option TurnState → Phase
phase_of none = fresh
phase_of (some state) = if state.closed then over else open_with state.chunks

pub follow-append :
    (lib : Library) (message : ℕ) (phase next : Phase) (xs ys : List Item)
    → follow lib message phase xs ≡ some next
    → follow lib message phase (xs ++ ys) ≡ follow lib message next ys
unfolding follow
follow-append lib message phase next [] ys h = ground arith
follow-append lib message phase next (x ∷ xs) ys h =
    elim (Option-cases (on_part lib phase (part_of message x))) [
      | inl e ↦ absurd (ground arith)
      | inr (p, e) ↦ rw (e, follow) (follow-append lib message p next xs ys (ground arith))
    ]

-- A call whose items lead the message to the phase that the memory holds behind it.
abbrev pub Follows : Library → ℕ → Mem → Called → Type 0
Follows lib message mem called =
    follow lib message (phase_of (lookup message mem.turns)) called.accepted
    ≡ some (phase_of (lookup message called.mem.turns))

module _ (lib : Library) (message : ℕ) where
  pub handed-Follows :
      (answer : Result (Unit {0})) (mem after : Mem) (item : Item)
      → on_part lib (phase_of (lookup message mem.turns)) (part_of message item)
        ≡ some (phase_of (lookup message after.turns))
      → Follows lib message mem (handed answer mem item after)
  unfolding handed follow
  handed-Follows (fail e) mem after item h = refl
  handed-Follows (ok u) mem after item h = rw (h, follow) refl

  pub hands-Follows :
      (accept : Item → Result (Unit {0})) (mem after : Mem) (item : Item)
      → on_part lib (phase_of (lookup message mem.turns)) (part_of message item)
        ≡ some (phase_of (lookup message after.turns))
      → Follows lib message mem (hands accept mem item after)
  unfolding hands
  hands-Follows accept mem after item h = handed-Follows (accept item) mem after item h

  opening-follows :
      (thread : ℕ) (mem : Mem) (turn : AiTurnRef) (ctx : WriteContext) (id : ℕ)
      → lookup turn.id mem.turns ≡ none
      → on_part lib
          (phase_of (lookup message mem.turns))
          (part_of message (opening_item thread mem turn ctx id))
        ≡ some (phase_of (lookup message (opened mem turn).turns))
  unfolding opening_item opened on_part part_of phase_of
  opening-follows thread mem turn ctx id e = elim (Bool-cases (nat_beq turn.id message)) [
    | inl b ↦ ground (
      arith,
      lookup-put message turn.id
          (record { agent = turn.agent; chunks = []; entries = []; closed = false }) mem.turns,
      nat_beq_iff turn.id message,
    )
    | inr b ↦ ground (
      arith,
      lookup-put message turn.id
          (record { agent = turn.agent; chunks = []; entries = []; closed = false }) mem.turns,
      nat_beq_iff turn.id message,
    )
  ]

  chunk-follows :
      (thread : ℕ) (mem : Mem) (state : TurnState) (m : ℕ) (entries : List ℕ) (chunk : Chunk)
      (id : ℕ)
      → lookup m mem.turns ≡ some state
      → state.closed ≡ false
      → on_part lib
          (phase_of (lookup message mem.turns))
          (part_of message (chunk_item thread state m entries chunk id))
        ≡ some (phase_of (lookup message (pushed mem state m entries chunk).turns))
  unfolding chunk_item pushed on_part part_of phase_of
  chunk-follows thread mem state m entries chunk id e c = elim (Bool-cases (nat_beq m message)) [
    | inl b ↦ ground (
      arith,
      nat_beq_iff m message,
      lookup-put message m
          (record state { chunks = state.chunks ++ chunk ∷ []; entries = entries ++ state.entries })
          mem.turns,
    )
    | inr b ↦ ground (
      arith,
      nat_beq_iff m message,
      lookup-put message m
          (record state { chunks = state.chunks ++ chunk ∷ []; entries = entries ++ state.entries })
          mem.turns,
    )
  ]

  pub ensure_state-Follows :
      (accept : Item → Result (Unit {0})) (thread : ℕ) (mem : Mem) (turn : AiTurnRef)
      (ctx : WriteContext) (id : ℕ) (state : Option TurnState)
      → lookup turn.id mem.turns ≡ state
      → Follows lib message mem (ensure_state accept thread mem turn ctx id state)
  unfolding ensure_state follow
  ensure_state-Follows accept thread mem turn ctx id none e =
      hands-Follows accept mem _ _ (opening-follows thread mem turn ctx id e)
  ensure_state-Follows accept thread mem turn ctx id (some state) e =
      if_branches (Follows lib message mem) state.closed (λ q. refl) (λ q. refl)

  pub push_state-Follows :
      (accept : Item → Result (Unit {0})) (thread : ℕ) (mem : Mem) (m : ℕ) (entries : List ℕ)
      (chunk : Chunk) (id : ℕ) (state : Option TurnState)
      → lookup m mem.turns ≡ state
      → Follows lib message mem (push_state accept thread mem m entries chunk id state)
  unfolding push_state follow
  push_state-Follows accept thread mem m entries chunk id none e = refl
  push_state-Follows accept thread mem m entries chunk id (some state) e =
      if_branches (Follows lib message mem) state.closed (λ q. refl)
        (λ q. hands-Follows accept mem _ _ (chunk-follows thread mem state m entries chunk id e q))
