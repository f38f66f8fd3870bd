-- ===== src/Toolkit/Shared/Epochs.antt =====
-- When the claims of the slots are stopped.

use br_jobs_runner_kit.Prelude.{
  subst, ◌||◌, ◌&&◌, not, nat_eq, Bool-cases, inl, ℕ, ◌+◌, ◌<◌, ◌≡◌, inr, refl, false, List, arith,
  nat_beq,
}
use br_jobs_runner_kit.Toolkit.Shared.{
  Shared, Mode, Call, stop_store, stop_counts, not_stopped, new, mode_changed, stop_claims,
  claims_stopped, run,
}
use br_jobs_runner_kit.Toolkit.Shared.Counted.{
  changes, asks, run-Counts, mode_changed-Free, run-Free, Free-claims,
}

stop_whole :
    (u : Shared) (epoch : ℕ)
    → claims_stopped (stop_claims u epoch) ≡ (nat_beq epoch u.mode_epoch || claims_stopped u)
unfolding stop_claims stop_counts stop_store claims_stopped
stop_whole u epoch = ground arith

-- With fewer changes of the mode than a u64 counts, and however the loads and the stores of the
-- stops interleave with all other calls, stops for earlier modes that are still on their way
-- included: a mode begins with its claims not stopped, and as long as it lasts they are stopped
-- only if a stop for its epoch was asked for in it; and a stop that nothing comes between stops
-- them exactly if it is for the epoch of the mode, and else leaves them as they are.
pub stop_claims-epoch :
    (before later : List Call) (mode : Mode) (epoch : ℕ)
    → changes before + 1 < not_stopped
    → changes later ≡ 0
    → let t = mode_changed (run new before) mode in
      let u = run t later in
      (claims_stopped t ≡ false)
      × ((claims_stopped u && not (asks t.mode_epoch later)) ≡ false)
      × (claims_stopped (stop_claims u epoch) ≡ (nat_beq epoch u.mode_epoch || claims_stopped u))
unfolding new
stop_claims-epoch before later mode epoch lt z =
    let s = run new before in
    let t = mode_changed s mode in
    let n = 0 + changes before in
    let counts =
      run-Counts 0 new before (omega (arith, lt))
        (record { counted = refl; halted = inr refl; storing = tt }) in
    let free = mode_changed-Free n s mode (omega (arith, lt)) counts in
    let same : t.mode_epoch ≡ n + 1 = free.counted in
    (
      Free-claims (n + 1) t free,
      elim (Bool-cases (asks t.mode_epoch later)) [
        | inl q ↦ ground (arith, q)
        | inr q ↦ ground (
          arith,
          Free-claims (n + 1) (run t later)
              (run-Free (n + 1) t later z (subst (λ m. asks m later ≡ false) same q) free),
        )
      ],
      stop_whole (run t later) epoch,
    )
