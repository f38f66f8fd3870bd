-- ===== src/Jobs/Queue/Task/Pending.antt =====
-- The order of `pending`.
use br_jobs_runner_kit.Jobs.Queue.Task.Kept.{IsKept}
use br_jobs_runner_kit.Prelude.{
  ℕ, ◌≤◌, ◌<◌, ◌≡◌, refl, false, List, [], ◌∷◌, arith, keys, count, All, nat_eq,
}
use br_jobs_runner_kit.Jobs.Queue.Shared.{Pending, insert_ordered, remove_ordered, waits}

abbrev Above : ℕ → List (ℕ × Pending) → Type 0
Above k = All λ p. k < p.0

-- The keys strictly increase.
abbrev pub Increasing : List (ℕ × Pending) → Type 0
Increasing [] = Unit {0}
Increasing ((k, v) ∷ m) = Above k m × Increasing m

Above-mono : (j k : ℕ) (m : List (ℕ × Pending)) → j ≤ k → Above k m → Above j m
Above-mono j k [] h a = tt
Above-mono j k (p ∷ m) h a = (omega arith, Above-mono j k m h a.1)

Above-insert :
    (j k : ℕ) (v : Pending) (m : List (ℕ × Pending))
    → j < k
    → Above j m
    → Above j (insert_ordered k v m)
unfolding insert_ordered
Above-insert j k v [] h a = (h, tt)
Above-insert j k v ((i, w) ∷ m) h a = ground (arith, Above-insert j k v m)

insert-Increasing :
    (k : ℕ) (v : Pending) (m : List (ℕ × Pending))
    → Increasing m
    → Increasing (insert_ordered k v m)
unfolding insert_ordered
insert-Increasing k v [] h = (tt, tt)
insert-Increasing k v ((i, w) ∷ m) h =
    ground (arith, insert-Increasing k v m, Above-insert i k v m, Above-mono k i m)

Above-remove : (j k : ℕ) (m : List (ℕ × Pending)) → Above j m → Above j (remove_ordered k m)
unfolding remove_ordered
Above-remove j k [] a = tt
Above-remove j k ((i, w) ∷ m) a = ground (arith, Above-remove j k m)

remove-Increasing :
    (k : ℕ) (m : List (ℕ × Pending)) → Increasing m → Increasing (remove_ordered k m)
unfolding remove_ordered
remove-Increasing k [] h = tt
remove-Increasing k ((i, w) ∷ m) h = ground (arith, remove-Increasing k m, Above-remove i k m)

pub Increasing-IsKept : IsKept Increasing
Increasing-IsKept = record { inserts = insert-Increasing; removes = remove-Increasing }

count-Above : (j k : ℕ) (m : List (ℕ × Pending)) → j ≤ k → Above k m → count j (keys m) ≡ 0
unfolding count
count-Above j k [] h a = refl
count-Above j k ((i, w) ∷ m) h a = ground (arith, count-Above j k m)

-- Where the first pending write is not one of those up to `upto`, none is.
pub waits-count :
    (k upto : ℕ) (m : List (ℕ × Pending))
    → Increasing m
    → waits m upto ≡ false
    → k < upto
    → count k (keys m) ≡ 0
unfolding waits count
waits-count k upto [] inc w h = refl
waits-count k upto ((i, p) ∷ m) inc w h = ground (arith, count-Above k i m)
