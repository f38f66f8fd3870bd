-- ===== src/Core/Slots.antt =====
-- crates/br-jobs-runner-core/src/slots.rs: the slots of a runner. The capacity is a NonZeroUsize.
pub mod Capacity
use br_jobs_runner_kit.Prelude.{
  ℕ, Bool, true, false, not, ◌&&◌, List, [], contains, insert, remove, length, ltb, leb, nat_beq,
  nat_eq, if◌then◌else◌,
}

pub data ClaimDecision : Type 0 where
  claimed at_capacity draining already_in_flight : ClaimDecision

pub record SlotPool : Type 0 where
  pub capacity : ℕ
  pub in_flight : List ℕ
  pub draining : Bool

unfoldable pub new : ℕ → SlotPool
new capacity = record { capacity = capacity; in_flight = []; draining = false }

unfoldable pub try_claim : SlotPool → ℕ → SlotPool × ClaimDecision
try_claim p run_id =
    if p.draining
    then (p, draining)
    else if contains run_id p.in_flight
    then (p, already_in_flight)
    else if leb p.capacity (length p.in_flight)
    then (p, at_capacity)
    else (record p { in_flight = insert run_id p.in_flight }, claimed)

unfoldable pub release : SlotPool → ℕ → SlotPool × Bool
release p run_id = (record p { in_flight = remove run_id p.in_flight }, contains run_id p.in_flight)

unfoldable pub begin_drain : SlotPool → SlotPool
begin_drain p = record p { draining = true }

unfoldable pub has_free_slot : SlotPool → Bool
has_free_slot p = not p.draining && ltb (length p.in_flight) p.capacity

pub in_flight : SlotPool → ℕ
in_flight p = length p.in_flight

pub is_idle : SlotPool → Bool
is_idle p = nat_beq (length p.in_flight) 0
