-- ===== src/Jobs/Book/Stable.antt =====
-- The id of an agent over the calls of `agent_for`.
use br_jobs_runner_kit.Prelude.{
  ℕ, ◌≡◌, refl, Bool, List, [], ◌∷◌, Option, none, some, inl, inr, arith, Option-cases, nat_eq,
  ◌==◌, ==_iff, lookup-put, if◌then◌else◌,
}
use br_jobs_runner_kit.Jobs.Book.{
  say, QueueReport, AgentKey, key_eq, Slot, Agents, add, find, Book, register, agent_for,
}

-- A call of `agent_for`: when, for which key, with an inbox or not, and the id at hand.
pub record Request : Type 0 where
  pub now : ℕ
  pub key : AgentKey
  pub inbox_label : Bool
  pub fresh : ℕ

find-add :
    (a : Agents) (key j : AgentKey) (slot : Slot)
    → find (add a key slot) j ≡ (if j == key then some slot.agent_id else find a j)
unfolding find add
find-add a key j slot = ground (arith, lookup-put j key slot a.by_key)

module _ {ℓ} {V : Type ℓ} where
  pub asked : Book V → List Request → Book V
  asked b [] = b
  asked b (q ∷ qs) = asked (agent_for b q.now q.key q.inbox_label q.fresh).0 qs

  say-agents : (p : Book V × Option QueueReport) → (say p).agents ≡ p.0.agents
  say-agents (b, none) = refl
  say-agents (b, some r) = refl

  agent_for-known :
      (b : Book V) (q : Request) (id : ℕ)
      → find b.agents q.key ≡ some id
      → agent_for b q.now q.key q.inbox_label q.fresh ≡ (b, id)
  unfolding agent_for
  agent_for-known b q id e = simp e

  agent_for-new :
      (b : Book V) (q : Request)
      → find b.agents q.key ≡ none
      → agent_for b q.now q.key q.inbox_label q.fresh
        ≡ (say (register b q.now q.key q.fresh q.inbox_label), q.fresh)
  unfolding agent_for
  agent_for-new b q e = simp e

  find-registered :
      (b : Book V) (q : Request) (j : AgentKey)
      → find (say (register b q.now q.key q.fresh q.inbox_label)).agents j
        ≡ (if j == q.key then some q.fresh else find b.agents j)
  unfolding register
  find-registered b q j =
      rw (say-agents (register b q.now q.key q.fresh q.inbox_label)) (find-add b.agents q.key j _)

  agent_for-find :
      (b : Book V) (q : Request) (j : AgentKey)
      → let (c, id) = agent_for b q.now q.key q.inbox_label q.fresh in
        find c.agents j ≡ (if j == q.key then some id else find b.agents j)
  agent_for-find b q j = elim (Option-cases (find b.agents q.key)) [
    | inl e ↦ rw (agent_for-new b q e) (find-registered b q j)
    | inr (id, e) ↦ rw (agent_for-known b q id e) (ground (arith, ==_iff j q.key, e))
  ]

  asked-known :
      (b : Book V) (qs : List Request) (key : AgentKey) (id : ℕ)
      → find b.agents key ≡ some id
      → find (asked b qs).agents key ≡ some id
  unfolding asked
  asked-known b [] key id h = h
  asked-known b (q ∷ qs) key id h =
      asked-known (agent_for b q.now q.key q.inbox_label q.fresh).0 qs key id
        (elim (Option-cases (find b.agents q.key)) [
          | inl e ↦ ground (arith, h, e, ==_iff key q.key, agent_for-find b q key)
          | inr (old, e) ↦ rw (agent_for-known b q old e) h
        ])

  -- The first call for a key settles the id of its agent: whatever is asked for later, a further
  -- call for that key returns the same id and changes nothing, so an agent is registered once.
  pub agent_for-once :
      (b : Book V) (first again : Request) (qs : List Request)
      → let c = agent_for b first.now first.key first.inbox_label first.fresh in
        agent_for (asked c.0 qs) again.now first.key again.inbox_label again.fresh
        ≡ (asked c.0 qs, c.1)
  agent_for-once b first again qs =
      let c = agent_for b first.now first.key first.inbox_label first.fresh in
      agent_for-known (asked c.0 qs) (record again { key = first.key }) c.1
        (asked-known c.0 qs first.key c.1
          (ground (arith, agent_for-find b first first.key, ==_iff first.key first.key)))
