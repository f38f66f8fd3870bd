-- ===== src/Kit/RunLoop/Cases.antt =====
-- What the branches of the loop come to, case by case.
use br_jobs_runner_kit.Prelude.{
  of_items, contains-remove, not, ◌&&◌, ℕ, ◌≡◌, refl, sym, subst, true, false, ◌∷◌, ◌++◌, [],
  Option, none, some, inl, inr, arith, Bool-cases, Option-cases, contains, nat_eq, lookup, put,
  delete,
}
use br_jobs_runner_kit.Core.Slots.{SlotPool, ClaimDecision, claimed, try_claim, release}
use br_jobs_runner_kit.Core.Cancel.{
  CancelSet, replace_with_replay, apply_delete, is_cancelled, apply_put,
}
use br_jobs_runner_kit.Kit.RunLoop.{
  RunFact, step, returns, panics, joined, CancelEvent, claim, Bool, Loop, Trigger, AckKind, ack,
  nak, term, Stage, running, returned, panicked, finish_delivery, spawn, accept_trigger, stage_of,
  without, staged, sent_by, join_branch, cancel_branch, cancelled, cleared, reset,
}
use br_jobs_runner_kit.Core.Slots.Capacity.{try_claim_cases}

module _ {ℓ} {V : Type ℓ} where
  -- The loop after the slot of a run was claimed and its start published.
  abbrev pub claimed_by : Loop V → Trigger V → Loop V
  claimed_by l t = record l {
    slots = (try_claim l.slots t.run_id).0;
    announced = l.announced ++ t.run_id ∷ [];
  }

  abbrev pub given_back : Loop V → Trigger V → Loop V
  given_back l t = record (claimed_by l t) {
    slots = (release (try_claim l.slots t.run_id).0 t.run_id).0;
  }

  -- Whether the run of a trigger is taken up.
  abbrev pub Admits : Loop V → Trigger V → Type 0
  Admits l t =
      (is_cancelled l.cancels t.run_id ≡ false) × ((try_claim l.slots t.run_id).1 ≡ claimed)

  module _ {κ} (P : Loop V → Type κ) (l : Loop V) where
    -- What a claim can come to, and what follows from it.
    abbrev Follows : Trigger V → Bool → SlotPool × ClaimDecision → Type κ
    Follows t accepted q =
        (q.1 ≡ claimed
          → P (
              finish_delivery
                (record l {
                  slots = (release q.0 t.run_id).0;
                  announced = l.announced ++ t.run_id ∷ [];
                })
                nak))
        → (q.1 ≡ claimed
            → P (
                spawn
                  (finish_delivery
                    (record l { slots = q.0; announced = l.announced ++ t.run_id ∷ [] }) ack)
                  t))
        → P (claim l t accepted q)

    claim-Follows :
        (t : Trigger V) (accepted : Bool)
        → ((kind : AckKind) → P (finish_delivery l kind))
        → Follows t accepted (try_claim l.slots t.run_id)
    claim-Follows t true answered =
        try_claim_cases (Follows t true) l.slots t.run_id (λ _ _. answered nak)
          (λ _ _. answered ack) (λ _ _. answered nak) (λ _ _ _ spawned. spawned refl)
    claim-Follows t false answered =
        try_claim_cases (Follows t false) l.slots t.run_id (λ _ _. answered nak)
          (λ _ _. answered ack) (λ _ _. answered nak) (λ _ _ refused _. refused refl)

    pub accept_trigger_cases :
        (frame : Option (Trigger V)) (accepted : Bool)
        → ((kind : AckKind) → P (finish_delivery l kind))
        → ((t : Trigger V) → Admits l t → P (finish_delivery (given_back l t) nak))
        → ((t : Trigger V) → Admits l t → P (spawn (finish_delivery (claimed_by l t) ack) t))
        → P (accept_trigger l frame accepted)
    unfolding accept_trigger
    accept_trigger_cases none accepted answered refused spawned = answered term
    accept_trigger_cases (some t) accepted answered refused spawned =
        elim (Bool-cases (is_cancelled l.cancels t.run_id)) [
          | inl e ↦ rw e (answered ack)
          | inr e ↦
              rw e
                (claim-Follows t accepted answered (λ c. refused t (e, c)) (λ c. spawned t (e, c)))
        ]

    pub cancel_branch_cases :
        (event : CancelEvent)
        → ((s : CancelSet)
            → ((r : ℕ) → (is_cancelled s r && not (is_cancelled l.cancels r)) ≡ false)
            → P (record l { cancels = s }))
        → ((r : ℕ) → lookup r l.tokens ≡ none → P (record l { cancels = apply_put l.cancels r }))
        → ((r : ℕ) → P (record l { cancels = apply_put l.cancels r; tokens = put r true l.tokens }))
        → P (cancel_branch l event)
    unfolding cancel_branch is_cancelled apply_delete replace_with_replay contains of_items
    cancel_branch_cases reset fewer unknown known =
        fewer (replace_with_replay l.cancels []) (λ r. refl)
    cancel_branch_cases (cleared r) fewer unknown known =
        fewer (apply_delete l.cancels r)
          (λ j. ground (arith, contains-remove j r l.cancels.cancelled))
    cancel_branch_cases (cancelled r) fewer unknown known =
        elim (Option-cases (lookup r l.tokens)) [
          | inl e ↦ subst P (sym (simp e)) (unknown r e)
          | inr (token, e) ↦ subst P (sym (simp e)) (known r)
        ]

    joined_cases :
        (r : ℕ) (stage : Option Stage)
        → P l
        → (stage ≡ some returned
            → P (record l {
              runs = without r l.runs;
              slots = (release l.slots r).0;
              tokens = delete r l.tokens;
            }))
        → (stage ≡ some panicked → P (record l { runs = without r l.runs }))
        → P (joined l r stage)
    joined_cases r none same back lost = same
    joined_cases r (some running) same back lost = same
    joined_cases r (some returned) same back lost = back refl
    joined_cases r (some panicked) same back lost = lost refl

    pub join_branch_cases :
        (r : ℕ)
        → P l
        → (stage_of r l.runs ≡ some returned
            → P (record l {
              runs = without r l.runs;
              slots = (release l.slots r).0;
              tokens = delete r l.tokens;
            }))
        → (stage_of r l.runs ≡ some panicked → P (record l { runs = without r l.runs }))
        → P (join_branch l r)
    unfolding join_branch
    join_branch_cases r = joined_cases r (stage_of r l.runs)

    pub task_returns_cases :
        (r : ℕ) (work : Trigger V → RunFact V)
        → P l
        → (stage_of r l.runs ≡ some running
            → P (record l {
              runs = staged r returned l.runs;
              facts = l.facts ++ sent_by r work l.runs;
            }))
        → P (step l (returns r work))
    unfolding step
    task_returns_cases r work same moved = elim (Option-cases (stage_of r l.runs)) [
      | inl e ↦ subst P (sym (simp e)) same
      | inr (running, e) ↦ subst P (sym (simp e)) (moved e)
      | inr (returned, e) ↦ subst P (sym (simp e)) same
      | inr (panicked, e) ↦ subst P (sym (simp e)) same
    ]

    pub task_panics_cases :
        (r : ℕ)
        → P l
        → (stage_of r l.runs ≡ some running → P (record l { runs = staged r panicked l.runs }))
        → P (step l (panics r))
    unfolding step
    task_panics_cases r same moved = elim (Option-cases (stage_of r l.runs)) [
      | inl e ↦ subst P (sym (simp e)) same
      | inr (running, e) ↦ subst P (sym (simp e)) (moved e)
      | inr (returned, e) ↦ subst P (sym (simp e)) same
      | inr (panicked, e) ↦ subst P (sym (simp e)) same
    ]
