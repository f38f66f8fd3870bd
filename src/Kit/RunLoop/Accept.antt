-- ===== src/Kit/RunLoop/Accept.antt =====
-- How `accept_trigger` answers a delivery, and what it takes up.
use br_jobs_runner_kit.Prelude.{
  Bool, ◌≡◌, refl, true, false, not, ◌&&◌, ◌||◌, [], ◌∷◌, ◌++◌, none, some, arith, contains, nat_eq,
  put, if◌then◌else◌,
}
use br_jobs_runner_kit.Core.Slots.{try_claim, has_free_slot}
use br_jobs_runner_kit.Core.Cancel.{is_cancelled}
use br_jobs_runner_kit.Kit.RunLoop.{
  Loop, Trigger, AckKind, ack, nak, term, running, finish_delivery, spawn, accept_trigger,
}

module _ {ℓ} {V : Type ℓ} where
  -- The answer to a trigger that decodes.
  unfoldable pub answer : Loop V → Trigger V → Bool → AckKind
  answer l t accepted =
      if is_cancelled l.cancels t.run_id
      then ack
      else if l.slots.draining
      then nak
      else if contains t.run_id l.slots.in_flight
      then ack
      else if has_free_slot l.slots && accepted
      then ack
      else nak

  -- Whether a trigger that decodes is spawned.
  unfoldable pub taken_up : Loop V → Trigger V → Bool → Bool
  taken_up l t accepted =
      has_free_slot l.slots
      && accepted
      && not (is_cancelled l.cancels t.run_id || contains t.run_id l.slots.in_flight)

  -- The whole of `accept_trigger`. A frame that does not decode is terminated and changes nothing
  -- else. A trigger that decodes gets exactly one answer, and is spawned with a token that is not
  -- cancelled exactly if its cancel does not stand, the pool has a free slot and does not hold its
  -- run, and `RunStarted` is accepted; it else leaves the tasks and the tokens as they were. So a
  -- trigger that a loop with a free slot refuses is refused because its start was not accepted.
  pub accept_trigger-answers :
      (l : Loop V) (t : Trigger V) (accepted : Bool)
      → let m = accept_trigger l (some t) accepted in
        (accept_trigger l none accepted ≡ record l { answers = l.answers ++ term ∷ [] })
        × (m.answers ≡ l.answers ++ answer l t accepted ∷ [])
        × (m.runs ≡ (
            if taken_up l t accepted
            then l.runs ++ record { trigger = t; stage = running } ∷ []
            else l.runs))
        × (m.tokens ≡ (if taken_up l t accepted then put t.run_id false l.tokens else l.tokens))
        × (answer l t true ≡ (if has_free_slot l.slots then ack else answer l t true))
  unfolding accept_trigger finish_delivery spawn try_claim has_free_slot answer taken_up
  accept_trigger-answers l t accepted =
      (refl, ground arith, ground arith, ground arith, ground arith)
