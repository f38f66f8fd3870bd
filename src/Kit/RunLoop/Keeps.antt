-- ===== src/Kit/RunLoop/Keeps.antt =====
-- Properties of the loop that each of its parts keeps.
use br_jobs_runner_kit.Prelude.{
  ℕ, Bool, ◌≡◌, sym, subst, false, ◌&&◌, List, [], ◌∷◌, ◌++◌, Option, some, inl, inr, arith,
  Bool-cases, is_some,
}
use br_jobs_runner_kit.Core.Slots.{has_free_slot, begin_drain}
use br_jobs_runner_kit.Core.Presence.{PresenceSession, PresenceAction, poll}
use br_jobs_runner_kit.Core.Presence
use br_jobs_runner_kit.Kit.Facts.{RunFact}
use br_jobs_runner_kit.Kit.RunLoop.{
  Loop, Trigger, CancelEvent, Stage, returned, panicked, Event, rounds, returns, panics, Branch,
  shuts_down, deadline_passes, delivers, hears_cancel, joins, heartbeat_due, publish, is_empty,
  sent_by, accept_trigger, finish, cancel_branch, join_branch, select, round, step, run, staged,
}
use br_jobs_runner_kit.Kit.RunLoop.Cases.{task_returns_cases, task_panics_cases}

module _ {ℓ} {V : Type ℓ} where
  -- The loop where the shutdown was asked for.
  abbrev pub drained : Loop V → ℕ → Loop V
  drained l deadline = record l {
    drain_deadline = some deadline;
    slots = begin_drain l.slots;
    presence = Presence.begin_drain l.presence;
  }

  pub record Keeps {κ} (P : Loop V → Type κ) : Type (ℓ ⊔ κ) where
    pub publishes :
        (l : Loop V) (p : PresenceSession × Option PresenceAction) → P l → P (publish l p)
    pub drains :
        (l : Loop V) (deadline : ℕ)
        → is_some l.drain_deadline ≡ false
        → P l
        → P (drained l deadline)
    pub finishes : (l : Loop V) → P l → P (finish l)
    pub accepts :
        (l : Loop V) (frame : Option (Trigger V)) (accepted : Bool)
        → is_some l.drain_deadline ≡ false
        → P l
        → P (accept_trigger l frame accepted)
    pub hears : (l : Loop V) (event : CancelEvent) → P l → P (cancel_branch l event)
    pub gathers : (l : Loop V) (r : ℕ) → P l → P (join_branch l r)
    pub restages :
        (l : Loop V) (r : ℕ) (st : Stage) (facts : List (RunFact V))
        → P l
        → P (record l { runs = staged r st l.runs; facts = facts })

  module _ {κ} {P : Loop V → Type κ} (k : Keeps P) where
    select-Keeps : (l : Loop V) (b : Branch V) → P l → P (select l b)
    unfolding select
    select-Keeps l (shuts_down deadline) h = elim (Bool-cases (is_some l.drain_deadline)) [
      | inl e ↦ subst P (sym (ground arith)) h
      | inr e ↦ subst P (sym (ground arith)) (k.drains l deadline e h)
    ]
    select-Keeps l deadline_passes h = elim (Bool-cases (is_some l.drain_deadline)) [
      | inl e ↦ subst P (sym (ground arith)) (k.finishes l h)
      | inr e ↦ subst P (sym (ground arith)) h
    ]
    select-Keeps l (delivers frame accepted) h = elim (Bool-cases (is_some l.drain_deadline)) [
      | inl e ↦ subst P (sym (ground arith)) h
      | inr e ↦ elim (Bool-cases (has_free_slot l.slots)) [
        | inl f ↦ subst P (sym (ground arith)) (k.accepts l frame accepted e h)
        | inr f ↦ subst P (sym (ground arith)) h
      ]
    ]
    select-Keeps l (hears_cancel event) h = k.hears l event h
    select-Keeps l (joins r) h = k.gathers l r h
    select-Keeps l heartbeat_due h = h

    round-Keeps : (l : Loop V) (now : ℕ) (b : Branch V) → P l → P (round l now b)
    unfolding round
    round-Keeps l now b h =
        let polled = publish l (poll l.presence now) in
        let w = k.publishes l (poll l.presence now) h in
        elim (Bool-cases (is_some l.drain_deadline && is_empty l.runs)) [
          | inl e ↦ subst P (sym (ground arith)) (k.finishes polled w)
          | inr e ↦ subst P (sym (ground arith)) (select-Keeps polled b w)
        ]

    step-Keeps : (l : Loop V) (e : Event V) → P l → P (step l e)
    unfolding step
    step-Keeps l (rounds now b) h = elim (Bool-cases l.ended) [
      | inl e ↦ subst P (sym (ground arith)) h
      | inr e ↦ subst P (sym (ground arith)) (round-Keeps l now b h)
    ]
    step-Keeps l (returns r work) h =
        task_returns_cases P l r work h
          (λ _. k.restages l r returned (l.facts ++ sent_by r work l.runs) h)
    step-Keeps l (panics r) h = task_panics_cases P l r h (λ _. k.restages l r panicked l.facts h)

    pub run-Keeps : (l : Loop V) (es : List (Event V)) → P l → P (run l es)
    unfolding run
    run-Keeps l [] h = h
    run-Keeps l (e ∷ es) h = run-Keeps (step l e) es (step-Keeps l e h)
