-- ===== src/Core/Presence.antt =====
-- crates/br-jobs-runner-core/src/presence.rs: when a runner publishes its presence. An instant and
-- a duration are numbers of nanoseconds; an instant past the platform's range is not modelled.
pub mod Actions
use br_jobs_runner_kit.Prelude.{
  ℕ, ◌+◌, Bool, true, false, Option, none, some, ltb, leb, nat_beq, if◌then◌else◌,
}

pub data PresenceAction : Type 0 where
  publish_ready publish_draining delete : PresenceAction

pub data NextDue : Type 0 where
  now : NextDue
  at : ℕ → NextDue
  never : NextDue

pub data PresenceConfigError : Type 0 where
  zero_interval interval_not_below_ttl : PresenceConfigError

pub data Phase : Type 0 where
  ready draining closed : Phase

pub record PresenceSession : Type 0 where
  pub interval : ℕ
  pub phase : Phase
  pub last_publish : Option ℕ

pub data NewResult : Type 0 where
  ok : PresenceSession → NewResult
  err : PresenceConfigError → NewResult

unfoldable pub new : ℕ → ℕ → NewResult
new ttl heartbeat_interval =
    if nat_beq heartbeat_interval 0
    then err zero_interval
    else if leb ttl heartbeat_interval
    then err interval_not_below_ttl
    else ok (record { interval = heartbeat_interval; phase = ready; last_publish = none })

abbrev pub is_closed : Phase → Bool
is_closed closed = true
is_closed _ = false

abbrev due_after : Option ℕ → ℕ → NextDue
due_after none interval = now
due_after (some last) interval = at (last + interval)

unfoldable pub next_due : PresenceSession → NextDue
next_due s = if is_closed s.phase then never else due_after s.last_publish s.interval

abbrev phase_action : Phase → Option PresenceAction
phase_action ready = some publish_ready
phase_action draining = some publish_draining
phase_action closed = none

-- The second `match` of `poll`: whether it goes on.
abbrev pub is_due : NextDue → ℕ → Bool
is_due now t = true
is_due (at due) t = leb due t
is_due never t = false

abbrev poll_in :
    PresenceSession → ℕ → Option PresenceAction → PresenceSession × Option PresenceAction
poll_in s t none = (s, none)
poll_in s t (some action) =
    if is_due (next_due s) t then (record s { last_publish = some t }, some action) else (s, none)

unfoldable pub poll : PresenceSession → ℕ → PresenceSession × Option PresenceAction
unfolding next_due
poll s t = poll_in s t (phase_action s.phase)

abbrev drained : PresenceSession → Phase → PresenceSession
drained s ready = record s { phase = draining; last_publish = none }
drained s _ = s

unfoldable pub begin_drain : PresenceSession → PresenceSession
begin_drain s = drained s s.phase

abbrev phase_is_draining : Phase → Bool
phase_is_draining draining = true
phase_is_draining _ = false

pub is_draining : PresenceSession → Bool
is_draining s = phase_is_draining s.phase

unfoldable pub close : PresenceSession → PresenceSession × Option PresenceAction
close s = if is_closed s.phase then (s, none) else (record s { phase = closed }, some delete)
