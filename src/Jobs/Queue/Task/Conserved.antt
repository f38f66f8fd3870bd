-- ===== src/Jobs/Queue/Task/Conserved.antt =====
-- The invariant of the task: where the numbers stand behind each event.
use br_jobs_runner_kit.Jobs.Queue.Task.Accounts.{
  AtHead, next_head_from-AtHead, gate_ended-Accounts, complete_all-Accounts, count-sort,
}
use br_jobs_runner_kit.Prelude.{
  count-keys_taken, All-put, All-delete, All-lookup, count_of_lookup-none, ℕ, ◌+◌, ◌≡◌, refl, true,
  List, [], ◌∷◌, ◌++◌, map, Option, none, some, inl, inr, arith, keys, count, All, count-map_append,
  count-keys-put, count-keys-delete, Bool-cases, lookup, delete, nat_eq, remove, contains,
}
use br_jobs_runner_kit.Jobs.Queue.Write.{Write, WriteResult, name}
use br_jobs_runner_kit.Jobs.Queue.Shared.{Shared, Entry, Held, Gate}
use br_jobs_runner_kit.Jobs.Queue.Shared.Accounts.{
  Accounts, seqs, held_seqs, hand_over-Accounts, hold-Accounts, complete-Accounts,
  record_failure-Accounts, stop_now-Accounts,
}
use br_jobs_runner_kit.Prelude.{ap}
use br_jobs_runner_kit.Jobs.Queue.Task.{
  dropped_entries, hands_over, holds, stops, turns, gates, outcomes, drops, take_head_if,
  started_head, gate_of, outcome_of, judged, finish_entry, Task, Event, Sent, Verdict, done, again,
  next_head, take_items, take_new_held, take_head, gate_branch, outcome_branch, attempt_once,
  sort_by_seq, drop_task, step, run, listed,
}

module _ {ℓ} {V : Type ℓ} where
  abbrev pub task_seqs : Task V → ℕ → ℕ
  task_seqs t k = count k (keys t.held) + count k (seqs (listed t.entry))

  abbrev Keyed : List (ℕ × (Entry V × Option (Write V))) → Type 0
  Keyed = All λ p. p.1.0.seq ≡ p.0

  -- What holds of a task between two events.
  pub record Inv (t : Task V) : Type ℓ where
    pub accounts : Accounts (task_seqs t) t.shared
    pub keyed : Keyed t.held
    pub sends : t.attempt ≡ t.entry

  take_items-Inv :
      (items : List (Held V)) (t : Task V)
      → Accounts (λ k. task_seqs t k + count k (held_seqs items)) t.shared
      → Keyed t.held
      → t.attempt ≡ t.entry
      → Inv (take_items items t)
  unfolding take_items count
  take_items-Inv [] t law keyed sends = record {
    accounts = λ k. record { placed = omega (arith, law k); pends = (law k).pends };
    keyed = keyed;
    sends = sends;
  }
  take_items-Inv (item ∷ items) t law keyed sends =
      take_items-Inv items _
        (λ k. record {
          placed =
              grind
                (arith, law k, count-keys-put k item.entry.seq (item.entry, item.follow) t.held);
          pends = (law k).pends;
        })
        (All-put (λ p. p.1.0.seq ≡ p.0) item.entry.seq (item.entry, item.follow) t.held refl keyed)
        sends

  take_new_held-Inv : (t : Task V) → Inv t → Inv (take_new_held t)
  unfolding take_new_held count
  take_new_held-Inv t v =
      take_items-Inv t.shared.new_held (record t { shared = record (t.shared) { new_held = [] } })
        (λ k. record { placed = omega (arith, v.accounts k); pends = (v.accounts k).pends }) v.keyed
        v.sends

  started_head-Inv :
      (t : Task V) (r : Shared V × Option (Entry V))
      → t.entry ≡ none
      → Inv t
      → AtHead (task_seqs t) r
      → Inv (started_head t r)
  unfolding count
  started_head-Inv t (s, none) e v h = record {
    accounts = λ k. record { placed = omega (arith, h k); pends = (h k).pends };
    keyed = v.keyed;
    sends = v.sends;
  }
  started_head-Inv t (s, some head) e v h = record {
    accounts = λ k. record {
      placed = omega (arith, h k, ap (λ o. count k (seqs (listed o))) e);
      pends = (h k).pends;
    };
    keyed = v.keyed;
    sends = refl;
  }

  take_head-Inv_at :
      (t : Task V) (o : Option (Entry V)) → t.entry ≡ o → Inv t → Inv (take_head_if t o)
  take_head-Inv_at t (some running) e v = v
  take_head-Inv_at t none e v = started_head-Inv t (next_head t.shared) e v (
      unfold next_head in
      next_head_from-AtHead (task_seqs t) t.shared.fifo t.shared refl v.accounts)

  take_head-Inv : (t : Task V) → Inv t → Inv (take_head t)
  unfolding take_head
  take_head-Inv t v = take_head-Inv_at t t.entry refl v

  gate_of-Inv :
      (t : Task V) (now seq : ℕ) (gate : Gate) (o : Option (Entry V × Option (Write V)))
      → lookup seq t.held ≡ o
      → Inv t
      → Inv (gate_of (record t { gates = remove seq t.gates; held = delete seq t.held }) now gate o)
  gate_of-Inv t now seq gate none e v = record {
    accounts = λ k. record {
      placed =
          grind (
            arith,
            v.accounts k,
            count-keys-delete k seq t.held,
            count_of_lookup-none seq t.held e,
          );
      pends = (v.accounts k).pends;
    };
    keyed = All-delete _ seq t.held v.keyed;
    sends = v.sends;
  }
  gate_of-Inv t now seq gate (some (entry, follow)) e v =
      let same : entry.seq ≡ seq =
        All-lookup (λ p. p.1.0.seq ≡ p.0) seq (entry, follow) t.held v.keyed e in
      record {
        accounts = gate_ended-Accounts _ t.shared now entry follow gate λ k. record {
          placed =
              grind (arith, v.accounts k, same, count-keys_taken k seq (entry, follow) t.held e);
          pends = (v.accounts k).pends;
        };
        keyed = All-delete _ seq t.held v.keyed;
        sends = v.sends;
      }

  gate_branch-Inv :
      (t : Task V) (now seq : ℕ) (gate : Gate) → Inv t → Inv (gate_branch t now seq gate)
  unfolding gate_branch
  gate_branch-Inv t now seq gate v = elim (Bool-cases (contains seq t.gates)) [
    | inl e ↦ rw e (gate_of-Inv t now seq gate (lookup seq t.held) refl v)
    | inr e ↦ rw e v
  ]

  finish_entry-Inv :
      (t : Task V) (o : Option (Entry V)) (r : WriteResult)
      → t.entry ≡ o
      → Inv t
      → Inv (finish_entry (record t { attempt = none; entry = none }) o r)
  unfolding count
  finish_entry-Inv t none r e v = record {
    accounts = λ k. record {
      placed = omega (arith, v.accounts k, ap (λ o. count k (seqs (listed o))) e);
      pends = (v.accounts k).pends;
    };
    keyed = v.keyed;
    sends = refl;
  }
  finish_entry-Inv t (some entry) r e v = record {
    accounts = complete-Accounts _ t.shared entry r λ k. record {
      placed = omega (arith, v.accounts k, ap (λ o. count k (seqs (listed o))) e);
      pends = (v.accounts k).pends;
    };
    keyed = v.keyed;
    sends = refl;
  }

  judged-Inv : (t : Task V) (running : Entry V) (d : Verdict) → Inv t → Inv (judged t running d)
  judged-Inv t running (done r) v = finish_entry-Inv t t.entry r refl v
  judged-Inv t running (again e) v = record {
    accounts = record_failure-Accounts _ t.shared running.seq (name running.write) e v.accounts;
    keyed = v.keyed;
    sends = v.sends;
  }

  outcome_of-Inv : (t : Task V) (o : Option (Entry V)) (s : Sent) → Inv t → Inv (outcome_of t o s)
  outcome_of-Inv t none s v = v
  outcome_of-Inv t (some running) s v = judged-Inv t running (attempt_once running.write s) v

  outcome_branch-Inv : (t : Task V) (s : Sent) → Inv t → Inv (outcome_branch t s)
  unfolding outcome_branch
  outcome_branch-Inv t s v = outcome_of-Inv t t.attempt s v

  count-Keyed :
      (k : ℕ) (m : List (ℕ × (Entry V × Option (Write V))))
      → Keyed m
      → count k (seqs (map (λ p. p.1.0) m)) ≡ count k (keys m)
  unfolding count
  count-Keyed k [] h = refl
  count-Keyed k ((i, (e, f)) ∷ m) h = rw (h.0, count-Keyed k m h.1)

  count-held_entries :
      (k : ℕ) (hs : List (Held V)) → count k (seqs (map (λ h. h.entry) hs)) ≡ count k (held_seqs hs)
  unfolding count
  count-held_entries k [] = refl
  count-held_entries k (h ∷ hs) = omega (arith, count-held_entries k hs)

  count-dropped :
      (t : Task V) (k : ℕ)
      → Keyed t.held
      → count k (seqs (sort_by_seq (dropped_entries t)))
        ≡ task_seqs t k + (count k (seqs t.shared.fifo) + count k (held_seqs t.shared.new_held))
  count-dropped t k h = omega (
    arith,
    count-sort k (dropped_entries t),
    count-map_append k (λ e. e.seq) (listed t.entry)
        (map (λ p. p.1.0) t.held ++ (t.shared.fifo ++ map (λ h. h.entry) t.shared.new_held)),
    count-map_append k (λ e. e.seq) (map (λ p. p.1.0) t.held)
        (t.shared.fifo ++ map (λ h. h.entry) t.shared.new_held),
    count-map_append k (λ e. e.seq) t.shared.fifo (map (λ h. h.entry) t.shared.new_held),
    count-Keyed k t.held h,
    count-held_entries k t.shared.new_held,
  )

  drop_task-Inv : (t : Task V) → Inv t → Inv (drop_task t)
  unfolding drop_task count
  drop_task-Inv t v = record {
    accounts =
        complete_all-Accounts (λ _. 0)
          (record (t.shared) { stopped = true; fifo = []; new_held = [] })
          (sort_by_seq (dropped_entries t))
          (λ k. record {
            placed = omega (arith, v.accounts k, count-dropped t k v.keyed);
            pends = (v.accounts k).pends;
          });
    keyed = tt;
    sends = refl;
  }

  pub step-Inv : (t : Task V) (e : Event V) → Inv t → Inv (step t e)
  unfolding step
  step-Inv t (hands_over now w) v = record {
    accounts = hand_over-Accounts _ t.shared now w v.accounts;
    keyed = v.keyed;
    sends = v.sends;
  }
  step-Inv t (holds now w follow) v = record {
    accounts = hold-Accounts _ t.shared now w follow v.accounts;
    keyed = v.keyed;
    sends = v.sends;
  }
  step-Inv t stops v = record {
    accounts = stop_now-Accounts _ t.shared v.accounts;
    keyed = v.keyed;
    sends = v.sends;
  }
  step-Inv t turns v = take_head-Inv (take_new_held t) (take_new_held-Inv t v)
  step-Inv t (gates now seq gate) v = gate_branch-Inv t now seq gate v
  step-Inv t (outcomes s) v = outcome_branch-Inv t s v
  step-Inv t drops v = drop_task-Inv t v

  pub run-Inv : (t : Task V) (es : List (Event V)) → Inv t → Inv (run t es)
  unfolding run
  run-Inv t [] v = v
  run-Inv t (e ∷ es) v = run-Inv (step t e) es (step-Inv t e v)
