-- ===== src/Jobs/Queue/Task/Cases.antt =====
-- What the search for the next head and the end of a gate come to, case by case.
use br_jobs_runner_kit.Prelude.{
  ℕ, ◌≡◌, refl, sym, subst, true, false, List, [], ◌∷◌, ◌++◌, Option, none, some, inl, inr, arith,
  Bool-cases, Option-cases,
}
use br_jobs_runner_kit.Jobs.Queue.Write.{Write, Removal, err, left_unsent, depends_on_removed}
use br_jobs_runner_kit.Jobs.Queue.Deps.{blocked}
use br_jobs_runner_kit.Jobs.Queue.Shared.{Shared, Entry, Gate, stored, dropped, complete, register}
use br_jobs_runner_kit.Jobs.Queue.Shared.Cases.{pushed}
use br_jobs_runner_kit.Jobs.Queue.Task.{next_head_from, gate_ended}

module _ {ℓ} {V : Type ℓ} (s : Shared V) where
  next_head-stopped : (fifo : List (Entry V)) → s.stopped ≡ true → next_head_from fifo s ≡ (s, none)
  unfolding next_head_from
  next_head-stopped [] off = refl
  next_head-stopped (head ∷ rest) off = ground arith

  module _ (head : Entry V) (rest : List (Entry V)) where
    abbrev pub popped : Shared V
    popped = record s { fifo = rest }

    next_head-blocked :
        (removal : Removal)
        → s.stopped ≡ false
        → blocked head.write s.ended ≡ some removal
        → next_head_from (head ∷ rest) s ≡ next_head_from rest (complete popped head (err removal))
    unfolding next_head_from
    next_head-blocked removal on e = simp (on, e)

    next_head-free :
        s.stopped ≡ false
        → blocked head.write s.ended ≡ none
        → next_head_from (head ∷ rest) s ≡ (popped, some head)
    unfolding next_head_from
    next_head-free on e = simp (on, e)

    pub next_head_cases {κ} :
        (P : Shared V × Option (Entry V) → Type κ)
        → (s.stopped ≡ true → P (s, none))
        → ((removal : Removal)
            → s.stopped ≡ false
            → blocked head.write s.ended ≡ some removal
            → P (next_head_from rest (complete popped head (err removal))))
        → (s.stopped ≡ false → blocked head.write s.ended ≡ none → P (popped, some head))
        → P (next_head_from (head ∷ rest) s)
    next_head_cases P off_case blocked_case free_case = elim (Bool-cases s.stopped) [
      | inl off ↦ subst P (sym (next_head-stopped (head ∷ rest) off)) (off_case off)
      | inr on ↦ elim (Option-cases (blocked head.write s.ended)) [
        | inl e ↦ subst P (sym (next_head-free on e)) (free_case on e)
        | inr (removal, e) ↦
            subst P (sym (next_head-blocked removal on e)) (blocked_case removal on e)
      ]
    ]

  -- The state after a stored gate has queued the entry that it held.
  abbrev pub requeued : Shared V → Entry V → Shared V
  requeued t e = record t { fifo = t.fifo ++ e ∷ [] }

  module _ {κ} (P : Shared V → Type κ) (now : ℕ) (e : Entry V) where
    pub gate_ended_cases :
        (follow : Option (Write V)) (gate : Gate)
        → ((removal : Removal) → P (complete s e (err removal)))
        → (s.stopped ≡ false → P (requeued s e))
        → ((w : Write V) → s.stopped ≡ false → P (requeued (pushed s now w) e))
        → P (gate_ended s now e follow gate)
    unfolding gate_ended register
    gate_ended_cases follow dropped removed alone both = removed depends_on_removed
    gate_ended_cases none stored removed alone both = elim (Bool-cases s.stopped) [
      | inl off ↦ subst P (sym (ground arith)) (removed left_unsent)
      | inr on ↦ subst P (sym (ground arith)) (alone on)
    ]
    gate_ended_cases (some w) stored removed alone both = elim (Bool-cases s.stopped) [
      | inl off ↦ subst P (sym (ground arith)) (removed left_unsent)
      | inr on ↦ subst P (sym (ground arith)) (both w on)
    ]
