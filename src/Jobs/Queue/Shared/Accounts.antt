-- ===== src/Jobs/Queue/Shared/Accounts.antt =====
-- Where each number of a write stands: in the queue, with the task, or among the ends.
use br_jobs_runner_kit.Jobs.Queue.Shared.Cases.{numbered, pushed, kept, hand_over_cases, hold_cases}
use br_jobs_runner_kit.Prelude.{
  ℕ, ◌+◌, ◌-◌, ◌≡◌, refl, List, [], ◌∷◌, map, Option, arith, keys, count, one_if, count-map_append,
  ltb, if◌then◌else◌,
}
use br_jobs_runner_kit.Jobs.Error.{Error}
use br_jobs_runner_kit.Jobs.Queue.Write.{Write, WriteName, WriteResult}
use br_jobs_runner_kit.Jobs.Queue.Shared.{
  name, Shared, Entry, Held, Pending, insert_ordered, remove_ordered, report, hand_over, hold,
  complete, record_failure, stop_now,
}

count-insert_ordered :
    (k j : ℕ) (v : Pending) (m : List (ℕ × Pending))
    → count j (keys m) ≡ 0
    → count k (keys (insert_ordered j v m)) ≡ one_if k j + count k (keys m)
unfolding count insert_ordered
count-insert_ordered k j v [] h = refl
count-insert_ordered k j v ((i, w) ∷ m) h = ground (arith, count-insert_ordered k j v m)

pub count-remove_ordered :
    (k j : ℕ) (m : List (ℕ × Pending))
    → count k (keys (remove_ordered j m)) ≡ count k (keys m) - one_if k j
unfolding count remove_ordered
count-remove_ordered k j [] = ground arith
count-remove_ordered k j ((i, w) ∷ m) = ground (arith, count-remove_ordered k j m)

abbrev pub below : ℕ → ℕ → ℕ
below k n = if ltb k n then 1 else 0

module _ {ℓ} {V : Type ℓ} where
  abbrev pub seqs : List (Entry V) → List ℕ
  seqs = map λ e. e.seq

  abbrev pub held_seqs : List (Held V) → List ℕ
  held_seqs = map λ h. h.entry.seq

  -- Of the number `k`, `x k` stand with the task: then it stands in one place in all if it was
  -- given out, and in none if not; and it is pending exactly as long as it has not ended.
  pub record Law (x : ℕ → ℕ) (s : Shared V) (k : ℕ) : Type 0 where
    pub placed :
        count k (seqs s.fifo) + count k (held_seqs s.new_held) + x k + count k (keys s.ends)
        ≡ below k s.next_seq
    pub pends : count k (keys s.pending) + count k (keys s.ends) ≡ below k s.next_seq

  abbrev pub Accounts : (ℕ → ℕ) → Shared V → Type 0
  Accounts x s = (k : ℕ) → Law x s k

  module _ (x : ℕ → ℕ) (s : Shared V) where
    fresh : Accounts x s → count s.next_seq (keys s.pending) ≡ 0
    fresh law = grind (arith, law s.next_seq)

    -- A new number may be given out to whatever one place it is put in.
    numbered-pends :
        (now : ℕ) (w : Write V) (k : ℕ)
        → Accounts x s
        → count k (keys (numbered s now w).pending) + count k (keys s.ends)
          ≡ below k (s.next_seq + 1)
    numbered-pends now w k law = ground (
      arith,
      law k,
      fresh law,
      count-insert_ordered k s.next_seq (record { name = name w; handed_over = now }) s.pending,
    )

    pub pushed-Accounts : (now : ℕ) (w : Write V) → Accounts x s → Accounts x (pushed s now w)
    unfolding count
    pushed-Accounts now w law k = record {
      placed = grind (
        arith,
        law k,
        count-map_append k (λ e. e.seq) s.fifo (record { seq = s.next_seq; write = w } ∷ []),
      );
      pends = numbered-pends now w k law;
    }

    pub kept-Accounts :
        (now : ℕ) (w : Write V) (follow : Option (Write V))
        → Accounts x s
        → Accounts x (kept s now w follow)
    unfolding count
    kept-Accounts now w follow law k = record {
      placed = grind (
        arith,
        law k,
        count-map_append k (λ h. h.entry.seq) s.new_held
            (record { entry = record { seq = s.next_seq; write = w }; follow = follow } ∷ []),
      );
      pends = numbered-pends now w k law;
    }

    pub hand_over-Accounts :
        (now : ℕ) (w : Write V) → Accounts x s → Accounts x (hand_over s now w).0
    hand_over-Accounts now w law =
        hand_over_cases (Accounts x) s now w
          (λ _ k. record { placed = (law k).placed; pends = (law k).pends })
          (λ _ _. pushed-Accounts now w law)

    pub hold-Accounts :
        (now : ℕ) (w : Write V) (follow : Option (Write V))
        → Accounts x s
        → Accounts x (hold s now w follow).0
    hold-Accounts now w follow law =
        hold_cases (Accounts x) s now w follow
          (λ _ k. record { placed = (law k).placed; pends = (law k).pends })
          (λ _. kept-Accounts now w follow law)

    pub complete-Accounts :
        (e : Entry V) (r : WriteResult)
        → Accounts (λ k. x k + one_if k e.seq) s
        → Accounts x (complete s e r)
    unfolding complete report count
    complete-Accounts e r law k = record {
      placed = ground (arith, law k);
      pends = ground (arith, law k, count-remove_ordered k e.seq s.pending);
    }

    pub record_failure-Accounts :
        (seq : ℕ) (n : WriteName) (e : Error) → Accounts x s → Accounts x (record_failure s seq n e)
    unfolding record_failure report
    record_failure-Accounts seq n e law k = record {
      placed = (law k).placed;
      pends = (law k).pends;
    }

    pub stop_now-Accounts : Accounts x s → Accounts x (stop_now s)
    unfolding stop_now
    stop_now-Accounts law k = record { placed = (law k).placed; pends = (law k).pends }
