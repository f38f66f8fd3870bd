-- ===== src/Jobs/Queue/Task/Accounts.antt =====
-- Where the numbers of the writes stand over the parts of the task.
use br_jobs_runner_kit.Prelude.{
  leb, ℕ, ◌+◌, ◌≡◌, refl, List, [], ◌∷◌, Option, none, some, inl, inr, arith, count, one_if,
  count-map_append, Bool-cases, nat_eq,
}
use br_jobs_runner_kit.Jobs.Queue.Write.{Write, Removal, err, left_unsent}
use br_jobs_runner_kit.Jobs.Queue.Shared.{Shared, Entry, Gate, complete}
use br_jobs_runner_kit.Jobs.Queue.Shared.Cases.{pushed}
use br_jobs_runner_kit.Jobs.Queue.Shared.Accounts.{
  Accounts, seqs, pushed-Accounts, complete-Accounts,
}
use br_jobs_runner_kit.Jobs.Queue.Task.Cases.{popped, requeued, next_head_cases, gate_ended_cases}
use br_jobs_runner_kit.Jobs.Queue.Shared.{report}
use br_jobs_runner_kit.Prelude.{ap}
use br_jobs_runner_kit.Jobs.Queue.Task.{
  next_head_from, gate_ended, insert_by_seq, sort_by_seq, complete_all, listed,
}

module _ {ℓ} {V : Type ℓ} where
  abbrev pub AtHead : (ℕ → ℕ) → Shared V × Option (Entry V) → Type 0
  AtHead x (s, o) = Accounts (λ k. x k + count k (seqs (listed o))) s

  popped-Accounts :
      (x : ℕ → ℕ) (s : Shared V) (head : Entry V) (rest : List (Entry V))
      → s.fifo ≡ head ∷ rest
      → Accounts x s
      → Accounts (λ k. x k + one_if k head.seq) (popped s head rest)
  unfolding count
  popped-Accounts x s head rest e law k = record {
    placed = grind (arith, law k, ap (λ l. count k (seqs l)) e);
    pends = (law k).pends;
  }

  none-AtHead : (x : ℕ → ℕ) (s : Shared V) → Accounts x s → AtHead x (s, none)
  unfolding count
  none-AtHead x s law k = record { placed = omega (arith, law k); pends = (law k).pends }

  found-AtHead :
      (x : ℕ → ℕ) (s : Shared V) (head : Entry V)
      → Accounts (λ k. x k + one_if k head.seq) s
      → AtHead x (s, some head)
  unfolding count
  found-AtHead x s head law k = record { placed = omega (arith, law k); pends = (law k).pends }

  -- The number of the entry that the search for a head comes to goes to the task.
  pub next_head_from-AtHead :
      (x : ℕ → ℕ) (fifo : List (Entry V)) (s : Shared V)
      → s.fifo ≡ fifo
      → Accounts x s
      → AtHead x (next_head_from fifo s)
  next_head_from-AtHead x [] s e law = unfold next_head_from in none-AtHead x s law
  next_head_from-AtHead x (head ∷ rest) s e law =
      let taken = popped-Accounts x s head rest e law in
      let go = λ (removal : Removal).
        next_head_from-AtHead x rest (complete (popped s head rest) head (err removal))
          (unfold complete report in refl)
          (complete-Accounts x (popped s head rest) head (err removal) taken) in
      next_head_cases s head rest (AtHead x) (λ _. none-AtHead x s law) (λ removal _ _. go removal)
        (λ _ _. found-AtHead x (popped s head rest) head taken)

  requeued-Accounts :
      (x : ℕ → ℕ) (s t : Shared V) (e : Entry V)
      → Accounts (λ k. x k + one_if k e.seq) t
      → Accounts x (requeued s t e)
  unfolding count
  requeued-Accounts x s t e law k = record {
    placed = grind (arith, law k, count-map_append k (λ e. e.seq) t.fifo (e ∷ []));
    pends = (law k).pends;
  }

  pub gate_ended-Accounts :
      (x : ℕ → ℕ) (s : Shared V) (now : ℕ) (e : Entry V) (follow : Option (Write V)) (gate : Gate)
      → Accounts (λ k. x k + one_if k e.seq) s
      → Accounts x (gate_ended s now e follow gate)
  gate_ended-Accounts x s now e follow gate law =
      gate_ended_cases s (Accounts x) now e follow gate (λ r. complete-Accounts x s e (err r) law)
        (λ _. requeued-Accounts x s s e law)
        (λ w _. requeued-Accounts x s (pushed s now w) e (pushed-Accounts _ s now w law))

  pub complete_all-Accounts :
      (x : ℕ → ℕ) (s : Shared V) (es : List (Entry V))
      → Accounts (λ k. x k + count k (seqs es)) s
      → Accounts x (complete_all s es)
  unfolding complete_all count
  complete_all-Accounts x s [] law =
      λ k. record { placed = omega (arith, law k); pends = (law k).pends }
  complete_all-Accounts x s (e ∷ es) law =
      complete_all-Accounts x (complete s e (err left_unsent)) es (
        complete-Accounts (λ k. x k + count k (seqs es)) s e (err left_unsent)
          (λ k. record { placed = omega (arith, law k); pends = (law k).pends }))

  count-insert_by_seq :
      (k : ℕ) (e : Entry V) (es : List (Entry V))
      → count k (seqs (insert_by_seq e es)) ≡ one_if k e.seq + count k (seqs es)
  unfolding insert_by_seq count
  count-insert_by_seq k e [] = refl
  count-insert_by_seq k e (f ∷ es) = elim (Bool-cases (leb e.seq f.seq)) [
    | inl h ↦ rw h
    | inr h ↦ rw h (omega (arith, count-insert_by_seq k e es))
  ]

  pub count-sort :
      (k : ℕ) (es : List (Entry V)) → count k (seqs (sort_by_seq es)) ≡ count k (seqs es)
  unfolding sort_by_seq count
  count-sort k [] = refl
  count-sort k (e ∷ es) = omega (arith, count-insert_by_seq k e (sort_by_seq es), count-sort k es)
