-- ===== src/Core/Backoff/Delays.antt =====
-- The delays that `next_delay` hands out: their bounds, their growth, and their exact values.
use native.Mathlib.Nat.{add-zero, zero-add, pow-suc, pow-le-pow_right, mul-le-mul_left}
use br_jobs_runner_kit.Prelude.{
  ℕ, zero, suc, ◌+◌, ◌*◌, ◌^◌, ◌≤◌, ◌<◌, min, ◌≡◌, some, arith, All, get_elem?,
}
use br_jobs_runner_kit.Core.Backoff.{
  Backoff, ok, u32_max, duration_max, saturating_pow, saturating_add, new, next_delay, reset,
  delays,
}

pow_pos : (n : ℕ) → 1 ≤ 2 ^ n
pow_pos zero = omega arith
pow_pos (suc n) = omega (arith, pow-suc 2 n, pow_pos n)

factor_pos : (n : ℕ) → 1 ≤ saturating_pow n
factor_pos n = omega (arith, pow_pos n)

base-le-mul : (b f : ℕ) → 1 ≤ f → b ≤ b * f
base-le-mul b f h = grind arith

next_delay_bounds :
    (b : Backoff)
    → b.base ≤ b.cap
    → b.cap ≤ duration_max
    → (b.base ≤ (next_delay b).1) × ((next_delay b).1 ≤ b.cap)
unfolding next_delay
next_delay_bounds b v h =
    omega (arith, base-le-mul b.base (saturating_pow b.attempts) (factor_pos b.attempts))

delays_bounds :
    (n : ℕ) (b : Backoff)
    → b.base ≤ b.cap
    → b.cap ≤ duration_max
    → All (λ d. (b.base ≤ d) × (d ≤ b.cap)) (delays n b)
unfolding delays next_delay
delays_bounds zero b v h = tt
delays_bounds (suc n) b v h = (next_delay_bounds b v h, delays_bounds n (next_delay b).0 v h)

new-eq-ok :
    (base most : ℕ) (b : Backoff)
    → new base most ≡ ok b
    → (b.base ≡ base) × (b.cap ≡ most) × (0 < base) × (base ≤ most)
unfolding new
new-eq-ok base most b e = ground arith

-- Whenever `new` accepts a base and a cap, which is no more than Duration::MAX, every delay of any number of failures in a row lies
-- between the base, which is not zero, and the cap.
pub new-delays_bounds :
    (base most : ℕ) (b : Backoff) (n : ℕ)
    → most ≤ duration_max
    → new base most ≡ ok b
    → (0 < base) × All (λ d. (base ≤ d) × (d ≤ most)) (delays n b)
new-delays_bounds base most b n h e =
    let (same_base, same_cap, pos, le) = new-eq-ok base most b e in
    (pos, rw (← same_base, ← same_cap) (delays_bounds n b (omega arith) (omega arith)))

saturating_pow_mono : (m n : ℕ) → m ≤ n → saturating_pow m ≤ saturating_pow n
saturating_pow_mono m n h = omega (arith, pow-le-pow_right {n = 2} (omega arith) h)

-- With a number of attempts that a u32 holds, no failure shortens the wait.
pub next_delay_mono :
    (b : Backoff) → b.attempts ≤ u32_max → (next_delay b).1 ≤ (next_delay (next_delay b).0).1
unfolding next_delay
next_delay_mono b h = omega (
  arith,
  mul-le-mul_left b.base
      (saturating_pow_mono b.attempts (saturating_add b.attempts 1) (omega arith)),
)

delay_from :
    (n k : ℕ) (b : Backoff)
    → k < n
    → b.attempts + k ≤ u32_max
    → b.cap ≤ duration_max
    → get_elem? (delays n b) k ≡ some (min (b.base * saturating_pow (b.attempts + k)) b.cap)
unfolding delays next_delay
delay_from zero k b h a d = elim h [ ]
delay_from (suc n) zero b h a d = ground (arith, add-zero b.attempts)
delay_from (suc n) (suc k) b h a d =
    let same : saturating_add b.attempts 1 + k ≡ b.attempts + suc k = omega arith in
    rw (← same) (delay_from n k (next_delay b).0 (omega arith) (omega arith) d)

small_pow : (k : ℕ) → k ≤ 31 → 2 ^ k ≤ u32_max
small_pow k h = omega (arith, pow-le-pow_right {n = 2} (omega arith) h)

-- After a reset, the delay of the failure number `k`, counted from 0, is the base doubled `k`
-- times, or the cap where that is less, for every `k` below 32 and a cap up to Duration::MAX.
pub reset-delays_doubling :
    (b : Backoff) (n k : ℕ)
    → b.cap ≤ duration_max
    → k < n
    → k ≤ 31
    → get_elem? (delays n (reset b)) k ≡ some (min (b.base * 2 ^ k) b.cap)
unfolding reset
reset-delays_doubling b n k d h small =
    let exact : saturating_pow (0 + k) ≡ 2 ^ k = rw zero-add (omega (arith, small_pow k small)) in
    rw (← exact) (delay_from n k (reset b) h (omega arith) d)
