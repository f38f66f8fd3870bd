-- ===== src/Kit/RunLoop/Invariant.antt =====
-- What holds between the slots, the tokens, the cancel orders and the running tasks of the loop.
use br_jobs_runner_kit.Prelude.{
  is_none, ℕ, ◌≡◌, ◌≤◌, true, false, not, ◌&&◌, List, [], Option, none, some, arith, ==_iff,
  contains, nat_eq, lookup, is_some, Distinct, if◌then◌else◌, contains-remove, contains-insert,
  lookup-put, lookup-delete, length,
}
use br_jobs_runner_kit.Core.Slots.{
  has_free_slot, SlotPool, claimed, try_claim, release, begin_drain,
}
use br_jobs_runner_kit.Core.Slots
use br_jobs_runner_kit.Core.Slots.Capacity.{try_claim-Inv, release-Inv, try_claim_iff}
use br_jobs_runner_kit.Core.Slots.Capacity
use br_jobs_runner_kit.Core.Cancel.{CancelSet, is_cancelled, apply_put}
use br_jobs_runner_kit.Core.Presence
use br_jobs_runner_kit.Kit.RunLoop.{
  initial, RunFact, ack, publish, PresenceAction, close, nak, PresenceSession, cancel_branch,
  join_branch, CancelEvent, running, Bool, Loop, Trigger, AckKind, Stage, Event, finish_delivery,
  spawn, accept_trigger, finish, run, staged,
}
use br_jobs_runner_kit.Kit.RunLoop.Runs.{
  ids, ids-staged, contains-ids_spawned, spawned-Distinct, contains-ids_without, without-Distinct,
}
use br_jobs_runner_kit.Kit.RunLoop.Keeps.{Keeps, run-Keeps}
use br_jobs_runner_kit.Kit.RunLoop.Cases.{
  claimed_by, given_back, Admits, accept_trigger_cases, cancel_branch_cases, join_branch_cases,
}

-- Each spawned run holds a slot and a token, and its token is cancelled where its cancel stands.
abbrev Covered : SlotPool → CancelSet → List (ℕ × Bool) → List ℕ → ℕ → Type 0
Covered slots orders tokens spawned r =
    contains r spawned ≡ true
    → (contains r slots.in_flight ≡ true)
      × (is_some (lookup r tokens) ≡ true)
      × (is_cancelled orders r ≡ true → lookup r tokens ≡ some true)

module _ {ℓ} {V : Type ℓ} where
  pub record Inv (l : Loop V) : Type ℓ where
    pub pool : Capacity.Inv l.slots
    pub distinct : Distinct (ids l.runs)
    pub covered : (r : ℕ) → Covered l.slots l.cancels l.tokens (ids l.runs) r

  module _ (l : Loop V) (v : Inv l) where
    finish_delivery-Inv : (kind : AckKind) → Inv (finish_delivery l kind)
    unfolding finish_delivery
    finish_delivery-Inv kind = record { pool = v.pool; distinct = v.distinct; covered = v.covered }

    given_back-Inv : (t : Trigger V) → Admits l t → Inv (given_back l t)
    unfolding release
    given_back-Inv t a = record {
      pool =
          release-Inv (try_claim l.slots t.run_id).0 t.run_id
            (try_claim-Inv l.slots t.run_id v.pool);
      distinct = v.distinct;
      covered = λ r h. ground (
        arith,
        v.covered r,
        v.covered t.run_id,
        ==_iff r t.run_id,
        try_claim_iff l.slots t.run_id r,
        contains-remove r t.run_id (try_claim l.slots t.run_id).0.in_flight,
      );
    }

    spawn-Inv : (t : Trigger V) → Admits l t → Inv (spawn (finish_delivery (claimed_by l t) ack) t)
    unfolding finish_delivery spawn
    spawn-Inv t a = record {
      pool = try_claim-Inv l.slots t.run_id v.pool;
      distinct =
          spawned-Distinct (record { trigger = t; stage = running }) l.runs
            (ground (arith, v.covered t.run_id, try_claim_iff l.slots t.run_id t.run_id))
            v.distinct;
      covered = λ r h. ground (
        arith,
        v.covered r,
        ==_iff r t.run_id,
        try_claim_iff l.slots t.run_id r,
        contains-ids_spawned r (record { trigger = t; stage = running }) l.runs,
        lookup-put r t.run_id (is_cancelled l.cancels t.run_id) l.tokens,
      );
    }

    cancel_branch-Inv : (event : CancelEvent) → Inv (cancel_branch l event)
    unfolding is_cancelled apply_put
    cancel_branch-Inv event =
        cancel_branch_cases Inv l event
          (λ s h. record {
            pool = v.pool;
            distinct = v.distinct;
            covered = λ r c. ground (arith, v.covered r, h r);
          })
          (λ q h. record {
            pool = v.pool;
            distinct = v.distinct;
            covered = λ r c.
                ground (arith, v.covered r, ==_iff r q, contains-insert r q l.cancels.cancelled);
          })
          (λ q. record {
            pool = v.pool;
            distinct = v.distinct;
            covered = λ r c. ground (
              arith,
              v.covered r,
              ==_iff r q,
              contains-insert r q l.cancels.cancelled,
              lookup-put r q true l.tokens,
            );
          })

    join_branch-Inv : (r : ℕ) → Inv (join_branch l r)
    unfolding release
    join_branch-Inv q =
        join_branch_cases Inv l q v
          (λ e. record {
            pool = release-Inv l.slots q v.pool;
            distinct = without-Distinct q l.runs v.distinct;
            covered = λ r c. ground (
              arith,
              v.covered r,
              ==_iff r q,
              contains-ids_without r q l.runs v.distinct,
              contains-remove r q l.slots.in_flight,
              lookup-delete r q l.tokens,
            );
          })
          (λ e. record {
            pool = v.pool;
            distinct = without-Distinct q l.runs v.distinct;
            covered =
                λ r c. ground (arith, v.covered r, contains-ids_without r q l.runs v.distinct);
          })

    begin_drain-Inv :
        (deadline : ℕ) (presence : PresenceSession)
        → Inv (record l {
          drain_deadline = some deadline;
          slots = begin_drain l.slots;
          presence = presence;
        })
    unfolding begin_drain
    begin_drain-Inv deadline presence = record {
      pool = record { distinct = v.pool.distinct; bounded = v.pool.bounded };
      distinct = v.distinct;
      covered = v.covered;
    }

    publish-Inv : (p : PresenceSession × Option PresenceAction) → Inv (publish l p)
    publish-Inv (presence, none) = record {
      pool = v.pool;
      distinct = v.distinct;
      covered = v.covered;
    }
    publish-Inv (presence, some action) = record {
      pool = v.pool;
      distinct = v.distinct;
      covered = v.covered;
    }

  accept_trigger-Inv :
      (l : Loop V) (frame : Option (Trigger V)) (accepted : Bool)
      → Inv l
      → Inv (accept_trigger l frame accepted)
  accept_trigger-Inv l frame accepted v =
      accept_trigger_cases Inv l frame accepted (finish_delivery-Inv l v)
        (λ t a. finish_delivery-Inv (given_back l t) (given_back-Inv l v t a) nak)
        (λ t a. spawn-Inv l v t a)

  finish-Inv : (l : Loop V) → Inv l → Inv (finish l)
  unfolding finish
  finish-Inv l v =
      publish-Inv (record l { ended = true; runs = [] })
        (record { pool = v.pool; distinct = tt; covered = λ r h. unfold contains in ground arith })
        (close l.presence)

  -- A task that ends stays in the set until it is joined.
  restaged-Inv :
      (l : Loop V) (r : ℕ) (st : Stage) (facts : List (RunFact V))
      → Inv l
      → Inv (record l { runs = staged r st l.runs; facts = facts })
  restaged-Inv l r st facts v = record {
    pool = v.pool;
    distinct = rw (ids-staged r st l.runs) v.distinct;
    covered = rw (ids-staged r st l.runs) v.covered;
  }

  pub Inv-Keeps : Keeps Inv
  Inv-Keeps = record {
    publishes = λ l p v. publish-Inv l v p;
    drains = λ l deadline e v. begin_drain-Inv l v deadline (Presence.begin_drain l.presence);
    finishes = finish-Inv;
    accepts = λ l frame accepted e v. accept_trigger-Inv l frame accepted v;
    hears = λ l event v. cancel_branch-Inv l v event;
    gathers = λ l r v. join_branch-Inv l v r;
    restages = restaged-Inv;
  }

  -- The loop as it starts.
  pub initial-Inv :
      (capacity : ℕ) (presence : PresenceSession) → Inv (initial (Slots.new capacity) presence)
  unfolding Slots.new initial contains
  initial-Inv capacity presence = record {
    pool = record { distinct = tt; bounded = omega arith };
    distinct = tt;
    covered = λ q h. ground arith;
  }

  -- Whatever the loop goes through from its start on: it holds no more slots than it has and no
  -- run twice, no run is spawned twice, and each spawned run holds a slot and has a token, which is
  -- cancelled wherever the cancel of the run stands.
  pub run-covered :
      (capacity : ℕ) (presence : PresenceSession) (es : List (Event V)) (r : ℕ)
      → let l = run (initial (Slots.new capacity) presence) es in
        (length l.slots.in_flight ≤ l.slots.capacity)
        × Distinct l.slots.in_flight
        × Distinct (ids l.runs)
        × ((contains r (ids l.runs) && not (contains r l.slots.in_flight)) ≡ false)
        × ((contains r (ids l.runs) && is_none (lookup r l.tokens)) ≡ false)
        × ((if contains r (ids l.runs) && is_cancelled l.cancels r
              then lookup r l.tokens
              else some true)
            ≡ some true)
  run-covered capacity presence es r =
      let start = initial (Slots.new capacity) presence in
      let v = run-Keeps Inv-Keeps start es (initial-Inv capacity presence) in
      (
        v.pool.bounded,
        v.pool.distinct,
        v.distinct,
        ground (arith, v.covered r),
        ground (arith, v.covered r),
        ground (arith, v.covered r),
      )
