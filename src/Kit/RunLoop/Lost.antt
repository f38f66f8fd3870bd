-- ===== src/Kit/RunLoop/Lost.antt =====
-- The slot of a run whose task panicked: run_loop.rs releases a slot only where `join_next` hands
-- out `Ok`.
use br_jobs_runner_kit.Prelude.{
  ℕ, ◌≡◌, refl, sym, subst, true, false, List, [], Option, none, some, arith, ◌==◌, ==_iff,
  contains, nat_eq, contains-remove,
}
use br_jobs_runner_kit.Core.Slots.{
  SlotPool, claimed, try_claim, release, begin_drain, has_free_slot,
}
use br_jobs_runner_kit.Core.Slots
use br_jobs_runner_kit.Core.Slots.Capacity.{try_claim_iff}
use br_jobs_runner_kit.Core.Presence.{PresenceSession, PresenceAction, close}
use br_jobs_runner_kit.Kit.RunLoop.{
  CancelEvent, Bool, Loop, Trigger, AckKind, running, returned, panicked, Event, initial, publish,
  finish_delivery, spawn, accept_trigger, finish, cancel_branch, join_branch, run, stage_of,
  without,
}
use br_jobs_runner_kit.Kit.RunLoop.Runs.{
  ids, ids-staged, contains-ids_spawned, contains-ids_without, contains_of_stage,
}
use br_jobs_runner_kit.Kit.RunLoop.Cases.{
  Admits, accept_trigger_cases, cancel_branch_cases, join_branch_cases,
}
use br_jobs_runner_kit.Kit.RunLoop.Invariant.{Inv, Inv-Keeps, initial-Inv}
use br_jobs_runner_kit.Kit.RunLoop.Keeps.{Keeps, run-Keeps}

module _ {ℓ} {V : Type ℓ} (r : ℕ) where
  -- The run holds a slot and has no task.
  record IsLost (l : Loop V) : Type 0 where
    held : contains r l.slots.in_flight ≡ true
    gone : contains r (ids l.runs) ≡ false

  module _ (l : Loop V) (h : IsLost l) where
    finish_delivery-IsLost : (kind : AckKind) → IsLost (finish_delivery l kind)
    unfolding finish_delivery
    finish_delivery-IsLost kind = record { held = h.held; gone = h.gone }

    Admits-IsLost : (t : Trigger V) → Admits l t → (r == t.run_id) ≡ false
    Admits-IsLost t a = ground (arith, h.held, ==_iff r t.run_id, try_claim_iff l.slots t.run_id r)

    accept_trigger-IsLost :
        (frame : Option (Trigger V)) (accepted : Bool) → IsLost (accept_trigger l frame accepted)
    unfolding finish_delivery release spawn
    accept_trigger-IsLost frame accepted =
        accept_trigger_cases IsLost l frame accepted finish_delivery-IsLost
          (λ t a. record {
            held = ground (
              arith,
              h.held,
              Admits-IsLost t a,
              try_claim_iff l.slots t.run_id r,
              contains-remove r t.run_id (try_claim l.slots t.run_id).0.in_flight,
            );
            gone = h.gone;
          })
          (λ t a. record {
            held = ground (arith, h.held, try_claim_iff l.slots t.run_id r);
            gone = ground (
              arith,
              h.gone,
              Admits-IsLost t a,
              contains-ids_spawned r (record { trigger = t; stage = running }) l.runs,
            );
          })

    join_branch-IsLost : (q : ℕ) → Inv l → IsLost (join_branch l q)
    unfolding release
    join_branch-IsLost q v =
        join_branch_cases IsLost l q h
          (λ e. record {
            held = ground (
              arith,
              h.held,
              h.gone,
              ==_iff r q,
              contains_of_stage q returned l.runs e,
              contains-remove r q l.slots.in_flight,
            );
            gone = ground (arith, h.gone, contains-ids_without r q l.runs v.distinct);
          })
          (λ e. record {
            held = h.held;
            gone = ground (arith, h.gone, contains-ids_without r q l.runs v.distinct);
          })

    publish-IsLost : (p : PresenceSession × Option PresenceAction) → IsLost (publish l p)
    publish-IsLost (presence, none) = record { held = h.held; gone = h.gone }
    publish-IsLost (presence, some action) = record { held = h.held; gone = h.gone }

  finish-IsLost : (l : Loop V) → IsLost l → IsLost (finish l)
  unfolding finish contains
  finish-IsLost l h =
      publish-IsLost (record l { ended = true; runs = [] }) (record { held = h.held; gone = refl })
        (close l.presence)

  cancel_branch-IsLost :
      (l : Loop V) (event : CancelEvent) → IsLost l → IsLost (cancel_branch l event)
  cancel_branch-IsLost l event h =
      cancel_branch_cases IsLost l event (λ _ _. record { held = h.held; gone = h.gone })
        (λ _ _. record { held = h.held; gone = h.gone })
        (λ _. record { held = h.held; gone = h.gone })

  IsLost-Keeps : Keeps (λ l. Inv l × IsLost l)
  unfolding begin_drain
  IsLost-Keeps = record {
    publishes = λ l p h. (Inv-Keeps.publishes l p h.0, publish-IsLost l h.1 p);
    drains = λ l deadline e h.
        (Inv-Keeps.drains l deadline e h.0, record { held = h.1.held; gone = h.1.gone });
    finishes = λ l h. (Inv-Keeps.finishes l h.0, finish-IsLost l h.1);
    accepts = λ l frame accepted e h.
        (Inv-Keeps.accepts l frame accepted e h.0, accept_trigger-IsLost l h.1 frame accepted);
    hears = λ l event h. (Inv-Keeps.hears l event h.0, cancel_branch-IsLost l event h.1);
    gathers = λ l q h. (Inv-Keeps.gathers l q h.0, join_branch-IsLost l h.1 q h.0);
    restages = λ l q st facts h. (
      Inv-Keeps.restages l q st facts h.0,
      record { held = h.1.held; gone = rw (ids-staged q st l.runs) h.1.gone },
    );
  }

  join_branch-panicked :
      (l : Loop V)
      → stage_of r l.runs ≡ some panicked
      → join_branch l r ≡ record l { runs = without r l.runs }
  unfolding join_branch
  join_branch-panicked l e = simp e

  joined-IsLost :
      (l : Loop V) → Inv l → stage_of r l.runs ≡ some panicked → IsLost (join_branch l r)
  joined-IsLost l v e =
      let c = v.covered r (contains_of_stage r panicked l.runs e) in
      subst IsLost (sym (join_branch-panicked l e)) (record {
        held = c.0;
        gone = ground (arith, ==_iff r r, contains-ids_without r r l.runs v.distinct);
      })

-- A run whose task panicked is joined without its slot being released, and nothing gives the slot
-- back: whatever happens later, the run stays in flight with no task of its own.
pub join_branch-lost {ℓ} :
    {V : Type ℓ} (capacity : ℕ) (presence : PresenceSession) (before later : List (Event V)) (r : ℕ)
    → stage_of r (run (initial (Slots.new capacity) presence) before).runs ≡ some panicked
    → let m = run (join_branch (run (initial (Slots.new capacity) presence) before) r) later in
      (contains r m.slots.in_flight ≡ true) × (contains r (ids m.runs) ≡ false)
join_branch-lost capacity presence before later r e =
    let l = run (initial (Slots.new capacity) presence) before in
    let v =
      run-Keeps Inv-Keeps (initial (Slots.new capacity) presence) before
        (initial-Inv capacity presence) in
    let h =
      run-Keeps (IsLost-Keeps r) (join_branch l r) later
        (Inv-Keeps.gathers l r v, joined-IsLost r l v e) in
    (h.1.held, h.1.gone)
