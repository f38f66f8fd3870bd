-- ===== src/Jobs/EndWait/Decisions.antt =====
-- What a wait is told, however late it looks.
use br_jobs_runner_kit.Prelude.{
  ℕ, ◌≤◌, ◌<◌, ◌≡◌, ◌⊎◌, refl, true, not, ◌||◌, List, [], ◌∷◌, Option, none, some, inl, inr, arith,
  Option-cases, is_none, nat_eq, nat_beq, ==_iff, ◌==◌, lookup, lookup-put, if◌then◌else◌,
}
use br_jobs_runner_kit.Jobs.Error.{Error, infra_missing}
use br_jobs_runner_kit.Jobs.EndWait.{
  Outcome, err, EndStore, Event, ends, ends_feed, arrival_ended, reopens, signal, record_end,
  feed_missing, reopened, decide, step, run,
}

-- What stands of the feed for a wait: nothing, an error from before the wait was opened, which a
-- feed that opens again takes away, or one since, which stays.
pub data Standing : Type 0 where
  open_feed : Standing
  before since : Error → Standing

abbrev pub standing_of : Option Error → Standing
standing_of none = open_feed
standing_of (some error) = before error

-- A feed that ends: of its errors only `InfraMissing` stands for a wait.
abbrev pub fed_out : Standing → Error → Standing
fed_out st (infra_missing text) = since (infra_missing text)
fed_out st error = st

abbrev opened_again : Standing → Standing
opened_again (since error) = since error
opened_again _ = open_feed

module _ {ℓ} {E : Type ℓ} where
  abbrev first_of : Option (Outcome E) → Outcome E → Option (Outcome E)
  first_of none outcome = some outcome
  first_of (some old) outcome = some old

  -- The first outcome of a child.
  unfoldable pub first_outcome : ℕ → Option (Outcome E) → List (Event E) → Option (Outcome E)
  first_outcome id known [] = known
  first_outcome id known (ends child outcome ∷ es) =
      first_outcome id (if id == child then first_of known outcome else known) es
  first_outcome id known (_ ∷ es) = first_outcome id known es

  unfoldable pub standing : Standing → List (Event E) → Standing
  standing st [] = st
  standing st (ends child outcome ∷ es) = standing st es
  standing st (ends_feed error ∷ es) = standing (fed_out st error) es
  standing st (reopens ∷ es) = standing (opened_again st) es

  -- The answer to a wait.
  abbrev pub told : Option (Outcome E) → Standing → Option (Outcome E)
  told (some outcome) st = some outcome
  told none open_feed = none
  told none (before error) = some (err error)
  told none (since error) = some (err error)

  -- The store against what stands for a wait that was opened at the generation `g`.
  abbrev Matches : ℕ → Standing → EndStore E → Type 0
  Matches g open_feed s = (s.generation ≡ g) × (s.kept ≡ none)
  Matches g (before error) s = (s.generation ≡ g) × (s.kept ≡ some error)
  Matches g (since error) s =
      (g < s.generation) × (s.last ≡ some error) × ((s.kept ≡ none) ⊎ (s.kept ≡ some error))

  decide-told :
      (g id : ℕ) (st : Standing) (s : EndStore E)
      → Matches g st s
      → decide s id g ≡ told (lookup id s.outcomes) st
  unfolding decide
  decide-told g id open_feed s m = ground arith
  decide-told g id (before error) s m = ground arith
  decide-told g id (since error) s m = ground arith

  Matches-le : (g : ℕ) (st : Standing) (s : EndStore E) → Matches g st s → g ≤ s.generation
  Matches-le g st s m = ground arith

  lookup-record_end :
      (id child : ℕ) (outcome : Outcome E) (s : EndStore E)
      → lookup id (record_end s child outcome).outcomes
        ≡ (if id == child then first_of (lookup id s.outcomes) outcome else lookup id s.outcomes)
  unfolding record_end signal
  lookup-record_end id child outcome s = elim (Option-cases (lookup child s.outcomes)) [
    | inl e ↦ rw e (ground (arith, e, ==_iff id child, lookup-put id child outcome s.outcomes))
    | inr (old, e) ↦ rw e (ground (arith, e, ==_iff id child))
  ]

  record_end-Matches :
      (g : ℕ) (st : Standing) (child : ℕ) (outcome : Outcome E) (s : EndStore E)
      → Matches g st s
      → Matches g st (record_end s child outcome)
  unfolding record_end signal
  record_end-Matches g st child outcome s m = ground arith

  reopened-Matches :
      (g : ℕ) (st : Standing) (s : EndStore E)
      → Matches g st s
      → Matches g (opened_again st) (reopened s)
  unfolding reopened
  reopened-Matches g st s m = ground arith

  arrival_ended-Matches :
      (g : ℕ) (st : Standing) (s : EndStore E) (error : Error)
      → Matches g st s
      → Matches g (fed_out st error) (arrival_ended s error)
  unfolding arrival_ended feed_missing signal
  arrival_ended-Matches g st s (infra_missing text) m =
      (omega (arith, Matches-le g st s m), refl, inr refl)
  arrival_ended-Matches g st s error m = m

  lookup-arrival_ended :
      (id : ℕ) (s : EndStore E) (error : Error)
      → lookup id (arrival_ended s error).outcomes ≡ lookup id s.outcomes
  unfolding arrival_ended feed_missing signal
  lookup-arrival_ended id s (infra_missing text) = refl
  lookup-arrival_ended id s error = refl

  decide-run :
      (g id : ℕ) (st : Standing) (s : EndStore E) (es : List (Event E))
      → Matches g st s
      → decide (run s es) id g ≡ told (first_outcome id (lookup id s.outcomes) es) (standing st es)
  unfolding run step first_outcome standing feed_missing signal reopened
  decide-run g id st s [] m = decide-told g id st s m
  decide-run g id st s (ends child outcome ∷ es) m = rw (← lookup-record_end id child outcome s) (
      decide-run g id st (record_end s child outcome) es
        (record_end-Matches g st child outcome s m))
  decide-run g id st s (ends_feed error ∷ es) m = rw (← lookup-arrival_ended id s error) (
      decide-run g id (fed_out st error) (arrival_ended s error) es
        (arrival_ended-Matches g st s error m))
  decide-run g id st s (reopens ∷ es) m =
      decide-run g id (opened_again st) (reopened s) es (reopened-Matches g st s m)

  standing_of-Matches : (s : EndStore E) → Matches s.generation (standing_of s.kept) s
  standing_of-Matches s = ground arith

  -- What a wait is told that was opened in the state `s`, after whatever the feed brought since,
  -- however late it looks: the first outcome that was recorded for its child, before or since; else
  -- the last `InfraMissing` by which the feed ended since the wait was opened, even where the feed is
  -- open again; else the `InfraMissing` of a feed that had ended before and did not open again. It
  -- waits on exactly where there is none of these: a feed that is lost ends no wait.
  pub decide-told_late :
      (s : EndStore E) (es : List (Event E)) (id : ℕ)
      → decide (run s es) id s.generation
        ≡ told (first_outcome id (lookup id s.outcomes) es) (standing (standing_of s.kept) es)
  decide-told_late s es id =
      decide-run s.generation id (standing_of s.kept) s es (standing_of-Matches s)

  -- No wait sleeps through its answer: an event that gives a wait its answer changes the number that
  -- the wait watches.
  pub step-wakes :
      (s : EndStore E) (e : Event E) (id g : ℕ)
      → decide s id g ≡ none
      → (is_none (decide (step s e) id g) || not (nat_beq (step s e).changed s.changed)) ≡ true
  unfolding step decide record_end arrival_ended feed_missing reopened signal
  step-wakes s (ends child outcome) id g h =
      ground (arith, h, lookup-record_end id child outcome s, ==_iff id child)
  step-wakes s (ends_feed (infra_missing text)) id g h = ground arith
  step-wakes s (ends_feed error) id g h = ground (arith, h)
  step-wakes s reopens id g h = ground (arith, h)
