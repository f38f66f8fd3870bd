-- ===== src/Core/Backoff.antt =====
-- crates/br-jobs-runner-core/src/backoff.rs: the delay between two attempts, doubled up to a cap.
-- A `Duration` is its number of nanoseconds.
pub mod Delays
use br_jobs_runner_kit.Prelude.{
  ℕ, zero, suc, ◌+◌, ◌-◌, ◌*◌, ◌^◌, min, List, [], ◌∷◌, ltb, nat_beq, if◌then◌else◌,
}

-- u32::MAX.
abbrev pub u32_max : ℕ
u32_max = 4_294_967_295

-- Duration::MAX: u64::MAX seconds and 999_999_999 nanoseconds.
abbrev pub duration_max : ℕ
duration_max = 18_446_744_073_709_551_615_999_999_999

pub data BackoffConfigError : Type 0 where
  zero_base cap_below_base : BackoffConfigError

pub record Backoff : Type 0 where
  pub base : ℕ
  pub cap : ℕ
  pub attempts : ℕ

pub data NewResult : Type 0 where
  ok : Backoff → NewResult
  err : BackoffConfigError → NewResult

-- u32::saturating_pow of 2.
abbrev pub saturating_pow : ℕ → ℕ
saturating_pow attempts = min (2 ^ attempts) u32_max

-- u32::saturating_add.
abbrev pub saturating_add : ℕ → ℕ → ℕ
saturating_add a b = min (a + b) u32_max

-- Duration::saturating_mul.
abbrev pub saturating_mul : ℕ → ℕ → ℕ
saturating_mul d factor = min (d * factor) duration_max

unfoldable pub new : ℕ → ℕ → NewResult
new base cap =
    if nat_beq base 0
    then err zero_base
    else if ltb cap base
    then err cap_below_base
    else ok (record { base = base; cap = cap; attempts = 0 })

unfoldable pub next_delay : Backoff → Backoff × ℕ
next_delay b =
    let factor = saturating_pow b.attempts in
    (record b { attempts = saturating_add b.attempts 1 }, min (saturating_mul b.base factor) b.cap)

unfoldable pub reset : Backoff → Backoff
reset b = record b { attempts = 0 }

-- The delays of `n` failures in a row, as the callers ask for them.
unfoldable pub delays : ℕ → Backoff → List ℕ
unfolding next_delay
delays zero b = []
delays (suc n) b = (next_delay b).1 ∷ delays n (next_delay b).0
