-- ===== src/Jobs/Book.antt =====
-- crates/br-runner-jobs/src/book/agents.rs and book/mod.rs: the agents of a run, each under the key
-- of its node and label. A registration is the end of a write in the queue. The test for a UUIDv7
-- is the uuid library's, and an argument.
pub mod Restored
pub mod Stable
use Prim.Native.String.{String}
use text.Mathlib.Text.{◌==◌ as str_eq}
use text.Mathlib.TextEquality.{eq_iff}
use br_jobs_runner_kit.Prelude.{
  ℕ, ◌≡◌, ◌↔◌, refl, Bool, true, false, not, ◌&&◌, List, [], ◌∷◌, ◌++◌, Option, none, some, arith,
  KeyEq, nat_eq, contains, insert, lookup, put, if◌then◌else◌,
}
use br_jobs_runner_kit.Jobs.Error.{Error, invalid_input}
use br_jobs_runner_kit.Jobs.Queue.Write.{Write, WriteEnd, QueueReport}
use br_jobs_runner_kit.Jobs.Queue.Shared.{Shared, enqueue, report}
use br_jobs_runner_kit.Jobs.Queue.Shared

pub record AgentKey : Type 0 where
  pub node : String
  pub label : String

abbrev pub key_beq : AgentKey → AgentKey → Bool
key_beq a b = str_eq a.node b.node && str_eq a.label b.label

pub key_beq_iff : (a b : AgentKey) → (key_beq a b ≡ true) ↔ (a ≡ b)
key_beq_iff a b = ground (arith, eq_iff a.node b.node, eq_iff a.label b.label)

instance abbrev pub key_eq : KeyEq AgentKey
key_eq = record { equals = key_beq; equals_iff = key_beq_iff }

pub record RestoredAgent : Type 0 where
  pub key : AgentKey
  pub agent_id : ℕ
  pub has_inbox : Bool

pub record BookedAgent : Type 0 where
  pub key : AgentKey
  pub agent_id : ℕ
  pub has_inbox : Bool

pub record Slot : Type 0 where
  pub agent_id : ℕ
  pub has_inbox : Bool
  pub registration : WriteEnd

pub record Agents : Type 0 where
  pub order : List AgentKey
  pub by_key : List (AgentKey × Slot)
  pub by_id : List (ℕ × AgentKey)
  pub restored : List ℕ

unfoldable pub no_agents : Agents
no_agents = record { order = []; by_key = []; by_id = []; restored = [] }

abbrev id_of : Option Slot → Option ℕ
id_of none = none
id_of (some slot) = some slot.agent_id

unfoldable pub find : Agents → AgentKey → Option ℕ
find a key = id_of (lookup key a.by_key)

unfoldable pub add : Agents → AgentKey → Slot → Agents
add a key slot = record a {
  order = a.order ++ key ∷ [];
  by_id = put slot.agent_id key a.by_id;
  by_key = put key slot a.by_key;
}

abbrev slot_at : Agents → Option AgentKey → Option Slot
slot_at a none = none
slot_at a (some key) = lookup key a.by_key

unfoldable pub slot_of : Agents → ℕ → Option Slot
slot_of a agent_id = slot_at a (lookup agent_id a.by_id)

unfoldable pub key_of : Agents → ℕ → Option AgentKey
key_of a agent_id = lookup agent_id a.by_id

unfoldable pub mark_restored : Agents → ℕ → Agents
mark_restored a agent_id = record a { restored = insert agent_id a.restored }

unfoldable pub is_restored : Agents → ℕ → Bool
is_restored a agent_id = contains agent_id a.restored

abbrev inbox_of : Option Slot → Bool
inbox_of none = false
inbox_of (some slot) = slot.has_inbox

unfoldable pub holds_inbox : Agents → ℕ → Bool
unfolding slot_of
holds_inbox a agent_id = inbox_of (slot_of a agent_id)

abbrev booked : AgentKey → Option Slot → List BookedAgent → List BookedAgent
booked key none rest = rest
booked key (some slot) rest =
    record { key = key; agent_id = slot.agent_id; has_inbox = slot.has_inbox } ∷ rest

unfoldable pub listed_from : List AgentKey → Agents → List BookedAgent
listed_from [] a = []
listed_from (key ∷ keys) a = booked key (lookup key a.by_key) (listed_from keys a)

unfoldable pub listed : Agents → List BookedAgent
unfolding listed_from
listed a = listed_from a.order a

-- The loop of `check_restored`: `none` where it returns `Ok`.
module _ (is_v7 : ℕ → Bool) where
  unfoldable pub check_from : List AgentKey → List ℕ → List RestoredAgent → Option Error
  check_from keys ids [] = none
  check_from keys ids (agent ∷ rest) =
      let later = check_from (insert agent.key keys) (insert agent.agent_id ids) rest in
      if not (is_v7 agent.agent_id)
      then some (invalid_input "a restored agent id is not a UUIDv7")
      else if contains agent.key keys
      then some (invalid_input "a restored agent key is given twice")
      else if contains agent.agent_id ids
      then some (invalid_input "a restored agent id is given twice")
      else later

  unfoldable pub check_restored : List RestoredAgent → Option Error
  unfolding check_from
  check_restored restored = check_from [] [] restored

-- The book with the queue that it writes to.
pub record Book {ℓ} (V : Type ℓ) : Type ℓ where
  pub queue : Shared V
  pub run_id : ℕ
  pub can_restart : Bool
  pub agents : Agents

abbrev with_report : Option QueueReport → List QueueReport → List QueueReport
with_report none reports = reports
with_report (some r) reports = r ∷ reports

module _ {ℓ} {V : Type ℓ} where
  unfoldable pub register : Book V → ℕ → AgentKey → ℕ → Bool → Book V × Option QueueReport
  register b now key agent_id has_inbox =
      let (queue, end, said) = enqueue b.queue now (
        Write.registration b.run_id
          (record { agent_id = agent_id; has_inbox = has_inbox; can_restart = b.can_restart })) in
      (
        record b {
          queue = queue;
          agents =
              add b.agents key
                (record { agent_id = agent_id; has_inbox = has_inbox; registration = end });
        },
        said,
      )

  abbrev pub say : Book V × Option QueueReport → Book V
  say (b, none) = b
  say (b, some r) = record b { queue = Shared.report b.queue r }

  abbrev agent_at : Book V → ℕ → AgentKey → Bool → ℕ → Option ℕ → Book V × ℕ
  agent_at b now key inbox_label fresh (some found) = (b, found)
  agent_at b now key inbox_label fresh none = (say (register b now key fresh inbox_label), fresh)

  -- `fresh` is the new id, where one is needed.
  unfoldable pub agent_for : Book V → ℕ → AgentKey → Bool → ℕ → Book V × ℕ
  unfolding register find
  agent_for b now key inbox_label fresh = agent_at b now key inbox_label fresh (find b.agents key)

  -- The loop of `make`, with the reports that it collects.
  unfoldable pub restore : Book V → ℕ → List RestoredAgent → Book V × List QueueReport
  unfolding register
  restore b now [] = (b, [])
  restore b now (agent ∷ rest) =
      let (c, said) = register b now agent.key agent.agent_id agent.has_inbox in
      let (d, reports) =
        restore (record c { agents = mark_restored c.agents agent.agent_id }) now rest in
      (d, with_report said reports)

  unfoldable pub report_all : Shared V → List QueueReport → Shared V
  report_all s [] = s
  report_all s (r ∷ rs) = report_all (Shared.report s r) rs

pub data MakeResult {ℓ} (V : Type ℓ) : Type ℓ where
  ok : Book V → MakeResult V
  err : Error → MakeResult V

module _ {ℓ} {V : Type ℓ} where
  -- `WorkCore::claim_once` on the flag `book_made`, and what stands behind it.
  abbrev make_once : Bool → Book V → ℕ → List RestoredAgent → Bool × MakeResult V
  make_once true b now restored =
      (true, err (invalid_input "the agent book of this Work was made already"))
  make_once false b now restored =
      let (made, reports) = restore b now restored in
      (true, ok (record made { queue = report_all made.queue reports }))

  abbrev make_checked : Bool → Book V → ℕ → List RestoredAgent → Option Error → Bool × MakeResult V
  make_checked book_made b now restored (some e) = (book_made, err e)
  make_checked book_made b now restored none = make_once book_made b now restored

  -- The flag behind the call, and its result.
  unfoldable pub make :
      (ℕ → Bool) → Bool → Shared V → ℕ → Bool → ℕ → List RestoredAgent → Bool × MakeResult V
  unfolding check_restored restore report_all
  make is_v7 book_made queue run_id can_restart now restored =
      make_checked book_made
        (record { queue = queue; run_id = run_id; can_restart = can_restart; agents = no_agents })
        now restored (check_restored is_v7 restored)
