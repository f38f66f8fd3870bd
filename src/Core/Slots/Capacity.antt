-- ===== src/Core/Slots/Capacity.antt =====
-- How many runs a pool holds, when a claim is granted, and what a drain refuses.
use br_jobs_runner_kit.Prelude.{
  not, ◌&&◌, ==_iff, ◌∙◌, ◌≤◌, ◌≡◌, refl, ◌↔◌, true, false, ◌||◌, ◌&&◌, not, List, [], ◌∷◌, arith,
  if◌then◌else◌, ◌==◌, nat_eq, contains, length, Distinct, contains-insert, contains-remove,
  insert-Distinct, remove-Distinct, length-insert, length-remove, ℕ, sym, subst, inl, inr,
  Bool-cases, insert, leb,
}
use br_jobs_runner_kit.Core.Slots.{
  SlotPool, ClaimDecision, already_in_flight, at_capacity, claimed, draining, new, try_claim,
  release, begin_drain, has_free_slot,
}

pub record Inv (p : SlotPool) : Type 0 where
  pub distinct : Distinct p.in_flight
  pub bounded : length p.in_flight ≤ p.capacity

pub data Call : Type 0 where
  claims releases : ℕ → Call
  drains : Call

pub step : SlotPool → Call → SlotPool
step p (claims r) = (try_claim p r).0
step p (releases r) = (release p r).0
step p drains = begin_drain p

pub run : SlotPool → List Call → SlotPool
unfolding step
run p [] = p
run p (c ∷ cs) = run (step p c) cs

pub try_claim-Inv : (p : SlotPool) (r : ℕ) → Inv p → Inv (try_claim p r).0
unfolding try_claim
try_claim-Inv p r v = ground (arith, insert-Distinct r p.in_flight, length-insert r p.in_flight)

pub release-Inv : (p : SlotPool) (r : ℕ) → Inv p → Inv (release p r).0
unfolding release
release-Inv p r v = record {
  distinct = remove-Distinct r p.in_flight v.distinct;
  bounded = omega (arith, length-remove r p.in_flight v.distinct, v.bounded);
}

-- What a claim comes to, case by case.
pub try_claim_cases {κ} :
    (P : SlotPool × ClaimDecision → Type κ) (p : SlotPool) (r : ℕ)
    → P (p, draining)
    → P (p, already_in_flight)
    → P (p, at_capacity)
    → (has_free_slot p ≡ true
        → contains r p.in_flight ≡ false
        → P (record p { in_flight = insert r p.in_flight }, claimed))
    → P (try_claim p r)
unfolding try_claim has_free_slot
try_claim_cases P p r draining_case held_case full_case free_case = elim (Bool-cases p.draining) [
  | inl e ↦ subst P (sym (ground arith)) draining_case
  | inr d ↦ elim (Bool-cases (contains r p.in_flight)) [
    | inl e ↦ subst P (sym (ground arith)) held_case
    | inr c ↦ elim (Bool-cases (leb p.capacity (length p.in_flight))) [
      | inl e ↦ subst P (sym (ground arith)) full_case
      | inr e ↦ subst P (sym (ground arith)) (free_case (ground arith) c)
    ]
  ]
]

step-Inv : (p : SlotPool) (c : Call) → Inv p → Inv (step p c)
unfolding step begin_drain
step-Inv p (claims r) v = try_claim-Inv p r v
step-Inv p (releases r) v = release-Inv p r v
step-Inv p drains v = record { distinct = v.distinct; bounded = v.bounded }

run-Inv : (p : SlotPool) (cs : List Call) → Inv p → Inv (run p cs)
unfolding run
run-Inv p [] v = v
run-Inv p (c ∷ cs) v = run-Inv (step p c) cs (step-Inv p c v)

step-capacity : (p : SlotPool) (c : Call) → (step p c).capacity ≡ p.capacity
unfolding step try_claim release begin_drain
step-capacity p c = ground arith

run-capacity : (p : SlotPool) (cs : List Call) → (run p cs).capacity ≡ p.capacity
unfolding run
run-capacity p [] = refl
run-capacity p (c ∷ cs) = run-capacity (step p c) cs ∙ step-capacity p c

-- However claims, releases and drains follow one another on a new pool, it holds no run twice and
-- never more runs than its capacity.
pub run-new_bounded :
    (capacity : ℕ) (cs : List Call)
    → Distinct (run (new capacity) cs).in_flight
      × (length (run (new capacity) cs).in_flight ≤ capacity)
unfolding new
run-new_bounded capacity cs =
    let v = run-Inv (new capacity) cs (record { distinct = tt; bounded = omega arith }) in
    (v.distinct, omega (arith, v.bounded, run-capacity (new capacity) cs))

-- What a claim decides, and what it changes: it is granted exactly where the pool shows a free
-- slot and does not hold the run; then the run is held and all else stays, and a refused claim leaves
-- the whole pool as it was.
pub try_claim_iff :
    (p : SlotPool) (r j : ℕ)
    → let after = (try_claim p r).0 in
      (((try_claim p r).1 ≡ claimed)
        ↔ ((has_free_slot p ≡ true) × (contains r p.in_flight ≡ false)))
      × (contains j after.in_flight
          ≡ (if has_free_slot p then j == r || contains j p.in_flight else contains j p.in_flight))
      × (after ≡ (
          if has_free_slot p && not (contains r p.in_flight)
          then record p { in_flight = after.in_flight }
          else p))
unfolding try_claim has_free_slot
try_claim_iff p r j =
    (ground arith, ground (arith, contains-insert j r p.in_flight, ==_iff j r), ground arith)

step-draining : (p : SlotPool) (c : Call) → p.draining ≡ true → (step p c).draining ≡ true
unfolding step try_claim release begin_drain
step-draining p c h = ground arith

run-draining : (p : SlotPool) (cs : List Call) → p.draining ≡ true → (run p cs).draining ≡ true
unfolding run
run-draining p [] h = h
run-draining p (c ∷ cs) h = run-draining (step p c) cs (step-draining p c h)

step-fewer :
    (p : SlotPool) (c : Call) (r : ℕ)
    → p.draining ≡ true
    → contains r (step p c).in_flight ≡ true
    → contains r p.in_flight ≡ true
unfolding step try_claim release begin_drain
step-fewer p (claims q) r d h = ground arith
step-fewer p (releases q) r d h = ground (arith, contains-remove r q p.in_flight)
step-fewer p drains r d h = h

run-fewer :
    (p : SlotPool) (cs : List Call) (r : ℕ)
    → p.draining ≡ true
    → contains r (run p cs).in_flight ≡ true
    → contains r p.in_flight ≡ true
unfolding run
run-fewer p [] r d h = h
run-fewer p (c ∷ cs) r d h = step-fewer p c r d (run-fewer (step p c) cs r (step-draining p c d) h)

-- Once the drain has begun, whatever is called after it, every claim is answered with `draining`
-- and no run is in flight that was not in flight when it began.
pub begin_drain-run :
    (p : SlotPool) (cs : List Call) (r : ℕ)
    → let q = run (begin_drain p) cs in
      (try_claim q r ≡ (q, draining))
      × ((contains r q.in_flight && not (contains r p.in_flight)) ≡ false)
unfolding begin_drain
begin_drain-run p cs r =
    let d = run-draining (begin_drain p) cs refl in
    (unfold try_claim in rw d, ground (arith, run-fewer (begin_drain p) cs r refl))
