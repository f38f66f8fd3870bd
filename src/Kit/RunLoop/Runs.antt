-- ===== src/Kit/RunLoop/Runs.antt =====
-- The tasks in the `JoinSet`, by the ids of their runs.
use br_jobs_runner_kit.Prelude.{
  ℕ, ◌≡◌, refl, true, false, not, ◌&&◌, ◌||◌, List, [], ◌∷◌, ◌++◌, map, some, arith, ◌==◌, nat_eq,
  contains, Distinct,
}
use br_jobs_runner_kit.Kit.RunLoop.{Spawned, Stage, stage_of, without, staged}

module _ {ℓ} {V : Type ℓ} where
  abbrev pub ids : List (Spawned V) → List ℕ
  ids = map λ s. s.trigger.run_id

  pub ids-staged : (r : ℕ) (st : Stage) (ss : List (Spawned V)) → ids (staged r st ss) ≡ ids ss
  unfolding staged
  ids-staged r st [] = refl
  ids-staged r st (s ∷ ss) = ground (arith, ids-staged r st ss)

  pub contains-ids_spawned :
      (j : ℕ) (s : Spawned V) (ss : List (Spawned V))
      → contains j (ids (ss ++ s ∷ [])) ≡ (j == s.trigger.run_id || contains j (ids ss))
  unfolding contains
  contains-ids_spawned j s [] = ground arith
  contains-ids_spawned j s (x ∷ ss) = ground (arith, contains-ids_spawned j s ss)

  pub spawned-Distinct :
      (s : Spawned V) (ss : List (Spawned V))
      → contains s.trigger.run_id (ids ss) ≡ false
      → Distinct (ids ss)
      → Distinct (ids (ss ++ s ∷ []))
  unfolding contains
  spawned-Distinct s [] h d = (refl, tt)
  spawned-Distinct s (x ∷ ss) h d =
      ground (arith, spawned-Distinct s ss, contains-ids_spawned x.trigger.run_id s ss)

  pub contains-ids_without :
      (j r : ℕ) (ss : List (Spawned V))
      → Distinct (ids ss)
      → contains j (ids (without r ss)) ≡ (not (j == r) && contains j (ids ss))
  unfolding contains without
  contains-ids_without j r [] d = ground arith
  contains-ids_without j r (s ∷ ss) d = ground (arith, contains-ids_without j r ss d.1)

  pub without-Distinct :
      (r : ℕ) (ss : List (Spawned V)) → Distinct (ids ss) → Distinct (ids (without r ss))
  unfolding contains without
  without-Distinct r [] d = tt
  without-Distinct r (s ∷ ss) d =
      ground (arith, without-Distinct r ss d.1, contains-ids_without s.trigger.run_id r ss d.1)

  pub contains_of_stage :
      (r : ℕ) (st : Stage) (ss : List (Spawned V))
      → stage_of r ss ≡ some st
      → contains r (ids ss) ≡ true
  unfolding contains stage_of
  contains_of_stage r st [] h = cc
  contains_of_stage r st (s ∷ ss) h = ground (arith, contains_of_stage r st ss)
