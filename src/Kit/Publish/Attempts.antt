-- ===== src/Kit/Publish/Attempts.antt =====
-- How often and how long the publication of a fact is tried.
use br_jobs_runner_kit.Prelude.{
  ℕ, zero, suc, ◌+◌, ◌≤◌, ◌≡◌, refl, Bool, false, ◌||◌, some, arith, length, if◌then◌else◌,
}
use br_jobs_runner_kit.Core.Backoff.{Backoff, delays, next_delay}
use br_jobs_runner_kit.Core.Backoff
use br_jobs_runner_kit.Kit.Publish.{Subject, Report, attempt_status, publish_status}

-- The delays of the publisher: half a second, doubled up to fifteen.
abbrev pub publish_backoff : Backoff
publish_backoff = record { base = 500_000_000; cap = 15_000_000_000; attempts = 0 }

-- Whether one of the attempts numbered from `attempt` on is accepted.
pub any_accepted : (ℕ → Bool) → ℕ → ℕ → Bool
any_accepted accepts zero attempt = false
any_accepted accepts (suc left) attempt = accepts attempt || any_accepted accepts left (suc attempt)

-- What a report shows after at most `left` attempts: it tries until the broker accepts, sleeps by
-- the backoff behind each refusal, and uses every attempt before it gives up.
abbrev pub Persistent : (ℕ → Bool) → ℕ → ℕ → Backoff → Report → Type 0
Persistent accepts left attempt b r =
    (r.delivered ≡ any_accepted accepts left attempt)
    × (r.tries ≤ left)
    × (length r.slept + (if r.delivered then 1 else 0) ≡ r.tries)
    × (r.slept ≡ delays (length r.slept) b)
    × ((if r.delivered then left else r.tries) ≡ left)

attempt_status-Persistent :
    (subject : Subject) (accepts : ℕ → Bool) (left attempt : ℕ) (b : Backoff)
    → Persistent accepts left attempt b (attempt_status subject accepts left attempt b)
unfolding attempt_status any_accepted delays
attempt_status-Persistent subject accepts zero attempt b = ground arith
attempt_status-Persistent subject accepts (suc left) attempt b =
    ground (arith, attempt_status-Persistent subject accepts left (suc attempt) (next_delay b).0)

-- Publishing a status fact never panics, and always comes to an end: it is delivered exactly if the
-- broker accepts one of its first eight attempts, behind each refused attempt it sleeps by the
-- backoff, it makes no attempt behind an accepted one, and gives up only after all eight.
pub publish_status-Persistent :
    (subject : Subject) (accepts : ℕ → Bool)
    → (r : Report) × (publish_status subject accepts ≡ some r)
      × Persistent accepts 8 1 publish_backoff r
unfolding publish_status Backoff.new
publish_status-Persistent subject accepts = (
  attempt_status subject accepts 8 1 publish_backoff,
  refl,
  attempt_status-Persistent subject accepts 8 1 publish_backoff,
)
