-- ===== src/Jobs/Queue/Deps/Blocking.antt =====
-- When a write is held back, and by what.
use br_jobs_runner_kit.Jobs.Queue.Deps.{
  dep_eq, true, false, Bool, Removal, Error, CreateChild, Write, DepKey, Ended, depends_on, own_key,
  blocked, blocked_keys, blocked_by, or_else,
}
use br_jobs_runner_kit.Prelude.{
  ◌≢◌, ℕ, ◌<◌, ◌≡◌, refl, ◌↔◌, ◌⊎◌, List, [], ◌∷◌, Option, none, some, arith, All, lookup,
}

-- The end of a key that lets its dependents through: none yet, or a delivery.
abbrev pub Passes : Option Ended → Type 0
Passes o = (o ≡ none) ⊎ (o ≡ some Ended.delivered)

or_else-none : (a b : Option Removal) → or_else a b ≡ none → (a ≡ none) × (b ≡ none)
or_else-none none b h = (refl, h)
or_else-none (some r) b h = cc

-- What a key may wait on: nothing, only the start, or only the start and keys of the second kind.
abbrev pub rank : DepKey → ℕ
rank DepKey.started = 0
rank (DepKey.create job_id) = 2
rank _ = 1

module _ {ℓ} {V : Type ℓ} where
  blocked_by-none :
      (w : Write V) (key : DepKey) (o : Option Ended) → (blocked_by w key o ≡ none) ↔ Passes o
  blocked_by-none w key o = ground arith

  blocked_keys-none :
      (w : Write V) (keys : List DepKey) (ended : List (DepKey × Ended))
      → (blocked_keys w keys ended ≡ none) ↔ All (λ key. Passes (lookup key ended)) keys
  unfolding blocked_keys
  blocked_keys-none w [] ended = (λ h. tt, λ h. refl)
  blocked_keys-none w (key ∷ rest) ended =
      let head = blocked_by-none w key (lookup key ended) in
      let tail = blocked_keys-none w rest ended in
      (
        λ h. (head.0 (or_else-none _ _ h).0, tail.0 (or_else-none _ _ h).1),
        λ p. rw (head.1 p.0) (tail.1 p.1),
      )

  -- A write may be sent exactly if each write that it depends on has not ended or was delivered.
  pub blocked-none_iff :
      (w : Write V) (ended : List (DepKey × Ended))
      → (blocked w ended ≡ none) ↔ All (λ key. Passes (lookup key ended)) (depends_on w)
  unfolding blocked
  blocked-none_iff w ended = blocked_keys-none w (depends_on w) ended

  -- The refusal of an upload is handed on to the create of the same job, as soon as nothing else
  -- keeps that create back before: the run has not failed to start.
  pub blocked-create_refused :
      (c : CreateChild V) (ended : List (DepKey × Ended)) (e : Error)
      → (blocked (Write.create c) ended ≡ some (Removal.refused e)) ↔ (
          Passes (lookup DepKey.started ended)
          × (lookup (DepKey.upload c.job_id) ended ≡ some (Ended.refused e)))
  unfolding blocked
  blocked-create_refused c ended e = (ground arith, ground arith)

  abbrev pub is_create : Write V → Bool
  is_create (Write.create c) = true
  is_create _ = false

  -- No write but a create is ever removed as refused because of a dependency.
  pub blocked-other :
      (w : Write V) (ended : List (DepKey × Ended)) (e : Error)
      → is_create w ≡ false
      → blocked w ended ≢ some (Removal.refused e)
  unfolding blocked
  blocked-other w ended e h = ground arith

  -- No write depends on itself, directly or through others: each key that a write with a key of its
  -- own depends on is of a lower rank.
  pub depends_on-rank :
      (w : Write V) (key : DepKey)
      → own_key w ≡ some key
      → All (λ k. rank k < rank key) (depends_on w)
  unfolding own_key depends_on
  depends_on-rank w key h = ground arith
