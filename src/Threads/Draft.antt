-- ===== src/Threads/Draft.antt =====
-- crates/br-runner-threads/src/response/whole.rs: the deltas that complete a draft. The crate for
-- messages is a record of types and functions, `Messages`; usage, names of models and the parts of
-- a block are numbers.
use br_jobs_runner_kit.Prelude.{
  ◌&&◌, ℕ, Bool, true, false, List, [], ◌∷◌, ◌++◌, Option, none, some, nat_beq, ltb, length,
  if◌then◌else◌,
}
use br_jobs_runner_kit.Threads.Error.{Error, invalid_input, Result, ok, fail, ◌>>=◌}

pub record ContentBlock : Type 0 where
  pub id : ℕ
  pub body : ℕ

-- The metadata of a response, and an update of some of it.
pub record Metadata : Type 0 where
  pub usage : Option ℕ
  pub model : Option ℕ
  pub provider_response_id : Option ℕ

pub record ModelResponse : Type 0 where
  pub id : ℕ
  pub blocks : List ContentBlock
  pub metadata : Metadata
  pub ending : ℕ

-- The operations that the crate makes itself, and any other.
pub data DeltaOp : Type 0 where
  response_started response_metadata_updated : Metadata → DeltaOp
  block_inserted : ContentBlock → DeltaOp
  block_finalized : ℕ → ContentBlock → DeltaOp
  response_completed : ℕ → DeltaOp
  response_cancelled : DeltaOp
  other : ℕ → DeltaOp

pub record ResponseDelta : Type 0 where
  pub turn : ℕ
  pub entry : ℕ
  pub op : DeltaOp

pub record Slot : Type 0 where
  pub block : ℕ
  pub is_open : Bool

-- A failing `apply` gives the error that the source makes of its failure.
pub record Messages : Type 1 where
  pub Draft : Type 0
  pub new_draft : ℕ → ℕ → Draft
  pub turn : Draft → ℕ
  pub entry : Draft → ℕ
  pub unstarted : Draft → Bool
  pub metadata : Draft → Metadata
  pub slots : Draft → List Slot
  pub apply : Draft → ResponseDelta → Draft × Result (Unit {0})
  pub into_response : Draft → Option ModelResponse
  pub same : ModelResponse → ModelResponse → Bool

abbrev pub unreachable_response : Error
unreachable_response =
    invalid_input "the whole response cannot be reached by more deltas from what was sent"

-- What the response has of a field, where the draft has not the same.
unfoldable pub newer : Option ℕ → Option ℕ → Option ℕ
newer none held = none
newer (some u) none = some u
newer (some u) (some h) = if nat_beq u h then none else some u

-- The update of the fields that changed, if one did.
unfoldable pub changed : Option ℕ → Option ℕ → Option ℕ → Option Metadata
changed none none none = none
changed usage model id = some (record { usage = usage; model = model; provider_response_id = id })

unfoldable pub metadata_update : Metadata → Metadata → Option Metadata
unfolding newer changed
metadata_update held response =
    changed (newer response.usage held.usage) (newer response.model held.model)
      (newer response.provider_response_id held.provider_response_id)

unfoldable pub insert_all : List ContentBlock → List DeltaOp
insert_all [] = []
insert_all (b ∷ blocks) = block_inserted b ∷ insert_all blocks

-- The loop over the slots with the blocks.
unfoldable pub finalize : List Slot → List ContentBlock → Result (List DeltaOp)
finalize [] blocks = ok []
finalize (s ∷ slots) [] = ok []
finalize (s ∷ slots) (b ∷ blocks) = do
  rest ← finalize slots blocks
  (if nat_beq s.block b.id
      then ok (if s.is_open then block_finalized b.id b ∷ rest else rest)
      else fail unreachable_response)

-- `blocks[slots.len()..]`.
unfoldable pub behind : List Slot → List ContentBlock → List ContentBlock
behind [] blocks = blocks
behind (s ∷ slots) [] = []
behind (s ∷ slots) (b ∷ blocks) = behind slots blocks

unfoldable pub updates : Option Metadata → List DeltaOp
updates none = []
updates (some update) = response_metadata_updated update ∷ []

unfoldable pub is_empty : List Slot → Bool
is_empty [] = true
is_empty _ = false

-- The operations of `whole_response_deltas` behind the started response and before its end.
unfoldable pub rest_ops : Messages → List Slot → Metadata → ModelResponse → Result (List DeltaOp)
unfolding metadata_update updates insert_all behind finalize
rest_ops m slots held response =
    if ltb (length response.blocks) (length slots) then fail unreachable_response else do
      finals ← finalize slots response.blocks
      ok (
          updates (metadata_update held response.metadata)
          ++ finals
          ++ insert_all (behind slots response.blocks))

unfoldable pub whole_ops : (m : Messages) → m.Draft → ModelResponse → Result (List DeltaOp)
unfolding is_empty
whole_ops m draft response =
    if is_empty (m.slots draft) && m.unstarted draft
    then ok (response_started response.metadata ∷ insert_all response.blocks)
    else rest_ops m (m.slots draft) (m.metadata draft) response

unfoldable pub wrap : (m : Messages) → m.Draft → DeltaOp → ResponseDelta
wrap m draft op = record { turn = m.turn draft; entry = m.entry draft; op = op }

unfoldable pub wrap_all : (m : Messages) → m.Draft → List DeltaOp → List ResponseDelta
wrap_all m draft [] = []
wrap_all m draft (op ∷ ops) = wrap m draft op ∷ wrap_all m draft ops

-- The loop that folds the deltas.
unfoldable pub fold : (m : Messages) → m.Draft → List ResponseDelta → Result m.Draft
fold m draft [] = ok draft
fold m draft (delta ∷ deltas) =
    let rest = fold m (m.apply draft delta).0 deltas in
    elim (m.apply draft delta).1 [ fail e ↦ fail unreachable_response | ok u ↦ rest ]

unfoldable pub reaches : (m : Messages) → Option ModelResponse → ModelResponse → Bool
reaches m none response = false
reaches m (some made) response = m.same made response

unfoldable pub whole_response_deltas :
    (m : Messages) → m.Draft → ModelResponse → Result (List ResponseDelta)
unfolding whole_ops wrap_all fold reaches
whole_response_deltas m draft response = do
  ops ← whole_ops m draft response
  let deltas = wrap_all m draft (ops ++ response_completed response.ending ∷ []) in
      do
        folded ← fold m draft deltas
        (if reaches m (m.into_response folded) response
            then ok deltas
            else fail unreachable_response)
