-- ===== src/Jobs/Queue/Shared/Cases.antt =====
-- What the calls of the handles do to the state: they queue the write, or end it unqueued.
use br_jobs_runner_kit.Prelude.{
  arith, ℕ, ◌+◌, ◌≡◌, sym, subst, true, false, [], ◌∷◌, ◌++◌, Option, none, some, inl, inr,
  Bool-cases, Option-cases,
}
use br_jobs_runner_kit.Jobs.Queue.Write.{Write, Removal, name, err, left_unsent, removed}
use br_jobs_runner_kit.Jobs.Queue.Deps.{blocked, of, own_key}
use br_jobs_runner_kit.Jobs.Queue.Shared.{
  Shared, insert_ordered, report, register, finish_unqueued, enqueue, hand_over, finish_reported,
  hold, end_key,
}

module _ {ℓ} {V : Type ℓ} where
  -- The state with a new number given out.
  abbrev pub numbered : Shared V → ℕ → Write V → Shared V
  numbered s now w = record s {
    next_seq = s.next_seq + 1;
    pending = insert_ordered s.next_seq (record { name = name w; handed_over = now }) s.pending;
  }

  abbrev pub pushed : Shared V → ℕ → Write V → Shared V
  pushed s now w = record (numbered s now w) {
    fifo = s.fifo ++ record { seq = s.next_seq; write = w } ∷ [];
  }

  abbrev pub kept : Shared V → ℕ → Write V → Option (Write V) → Shared V
  kept s now w follow = record (numbered s now w) {
    new_held =
        s.new_held
        ++ record { entry = record { seq = s.next_seq; write = w }; follow = follow } ∷ [];
  }

  -- The state after a write ended unqueued.
  abbrev pub unqueued : Shared V → Write V → Removal → Shared V
  unqueued s w removal = record s {
    ended = end_key (own_key w) (of (err removal)) s.ended;
    reports = removed (name w) removal ∷ s.reports;
  }

  module _ (s : Shared V) (now : ℕ) (w : Write V) where
    hand_over-stopped : s.stopped ≡ true → (hand_over s now w).0 ≡ unqueued s w left_unsent
    unfolding hand_over enqueue finish_unqueued report
    hand_over-stopped off = ground arith

    hand_over-blocked :
        (removal : Removal)
        → s.stopped ≡ false
        → blocked w s.ended ≡ some removal
        → (hand_over s now w).0 ≡ unqueued s w removal
    unfolding hand_over enqueue finish_unqueued report
    hand_over-blocked removal on e = simp (on, e)

    hand_over-free :
        s.stopped ≡ false → blocked w s.ended ≡ none → (hand_over s now w).0 ≡ pushed s now w
    unfolding hand_over enqueue register
    hand_over-free on e = simp (on, e)

    hold-stopped :
        (follow : Option (Write V))
        → s.stopped ≡ true
        → (hold s now w follow).0 ≡ unqueued s w left_unsent
    unfolding hold finish_reported finish_unqueued report
    hold-stopped follow off = ground arith

    hold-free :
        (follow : Option (Write V))
        → s.stopped ≡ false
        → (hold s now w follow).0 ≡ kept s now w follow
    unfolding hold register
    hold-free follow on = ground arith

  module _ {κ} (P : Shared V → Type κ) (s : Shared V) (now : ℕ) (w : Write V) where
    pub hand_over_cases :
        ((removal : Removal) → P (unqueued s w removal))
        → (s.stopped ≡ false → blocked w s.ended ≡ none → P (pushed s now w))
        → P (hand_over s now w).0
    hand_over_cases refused queued = elim (Bool-cases s.stopped) [
      | inl off ↦ subst P (sym (hand_over-stopped s now w off)) (refused left_unsent)
      | inr on ↦ elim (Option-cases (blocked w s.ended)) [
        | inl free ↦ subst P (sym (hand_over-free s now w on free)) (queued on free)
        | inr (removal, e) ↦
            subst P (sym (hand_over-blocked s now w removal on e)) (refused removal)
      ]
    ]

    pub hold_cases :
        (follow : Option (Write V))
        → ((removal : Removal) → P (unqueued s w removal))
        → (s.stopped ≡ false → P (kept s now w follow))
        → P (hold s now w follow).0
    hold_cases follow refused queued = elim (Bool-cases s.stopped) [
      | inl off ↦ subst P (sym (hold-stopped s now w follow off)) (refused left_unsent)
      | inr on ↦ subst P (sym (hold-free s now w follow on)) (queued on)
    ]
