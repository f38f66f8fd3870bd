-- ===== src/Core/Cancel/Replay.antt =====
-- The set after any history of events, against the history itself.
use br_jobs_runner_kit.Prelude.{
  ℕ, ◌≡◌, refl, ap, ◌∙◌, nat_eq, Bool, true, false, List, [], ◌∷◌, arith, if◌then◌else◌, ◌==◌,
  contains, Distinct, contains-insert, contains-remove, contains-of_items, insert-Distinct,
  remove-Distinct, of_items-Distinct,
}
use br_jobs_runner_kit.Core.Cancel.{
  CancelSet, new, apply_put, apply_delete, replace_with_replay, is_cancelled,
}

-- What the watch of the cancel bucket can say.
pub data Event : Type 0 where
  put delete : ℕ → Event
  replay : List ℕ → Event

pub step : CancelSet → Event → CancelSet
step s (put r) = apply_put s r
step s (delete r) = apply_delete s r
step s (replay rs) = replace_with_replay s rs

pub run : CancelSet → List Event → CancelSet
unfolding step
run s [] = s
run s (e ∷ es) = run (step s e) es

-- What one event says of the run `r`; `before` where it does not speak of it.
says : ℕ → Bool → Event → Bool
says r before (put q) = if r == q then true else before
says r before (delete q) = if r == q then false else before
says r before (replay rs) = contains r rs

-- What the last event that speaks of the run `r` says; `before` where none does.
pub last_word : ℕ → Bool → List Event → Bool
unfolding says
last_word r before [] = before
last_word r before (e ∷ es) = last_word r (says r before e) es

is_cancelled-step :
    (r : ℕ) (s : CancelSet) (e : Event) → is_cancelled (step s e) r ≡ says r (is_cancelled s r) e
unfolding says step is_cancelled apply_put apply_delete replace_with_replay
is_cancelled-step r s (put q) = ground (arith, contains-insert r q s.cancelled)
is_cancelled-step r s (delete q) = ground (arith, contains-remove r q s.cancelled)
is_cancelled-step r s (replay rs) = contains-of_items r rs

is_cancelled-run_from :
    (r : ℕ) (s : CancelSet) (es : List Event)
    → is_cancelled (run s es) r ≡ last_word r (is_cancelled s r) es
unfolding run last_word
is_cancelled-run_from r s [] = refl
is_cancelled-run_from r s (e ∷ es) =
    is_cancelled-run_from r (step s e) es ∙ ap (λ b. last_word r b es) (is_cancelled-step r s e)

-- After any history of puts, deletes and replays, a run counts as cancelled exactly if the last
-- event that speaks of it, where a replay speaks of every run, orders its cancel.
pub is_cancelled-run :
    (r : ℕ) (es : List Event) → is_cancelled (run new es) r ≡ last_word r false es
unfolding new is_cancelled contains
is_cancelled-run r es = is_cancelled-run_from r new es

-- No history makes the set hold a run twice, so `len` counts runs.
pub run-Distinct :
    (s : CancelSet) (es : List Event) → Distinct s.cancelled → Distinct (run s es).cancelled
unfolding run step apply_put apply_delete replace_with_replay
run-Distinct s [] d = d
run-Distinct s (put q ∷ es) d = run-Distinct (step s (put q)) es (insert-Distinct q s.cancelled d)
run-Distinct s (delete q ∷ es) d =
    run-Distinct (step s (delete q)) es (remove-Distinct q s.cancelled d)
run-Distinct s (replay rs ∷ es) d = run-Distinct (step s (replay rs)) es (of_items-Distinct rs)
