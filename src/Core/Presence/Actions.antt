-- ===== src/Core/Presence/Actions.antt =====
-- What a presence session publishes over its life: in which order, how often, and how late.
use br_jobs_runner_kit.Prelude.{
  Bool-cases, ℕ, ◌+◌, ◌<◌, ◌≡◌, inl, inr, Option, none, some, List, [], ◌∷◌, arith, if◌then◌else◌,
}
use br_jobs_runner_kit.Core.Presence.{
  leb, PresenceSession, PresenceAction, Phase, ok, publish_ready, publish_draining, delete, ready,
  draining, closed, at, new, next_due, is_due, poll, begin_drain, close,
}

pub data Call : Type 0 where
  polls : ℕ → Call
  drains closes : Call

pub step : PresenceSession → Call → PresenceSession × Option PresenceAction
step s (polls t) = poll s t
step s drains = (begin_drain s, none)
step s closes = close s

abbrev emit : Option PresenceAction → List PresenceAction → List PresenceAction
emit none rest = rest
emit (some a) rest = a ∷ rest

-- The actions that a history of calls asks for, oldest first.
pub actions : PresenceSession → List Call → List PresenceAction
unfolding step
actions s [] = []
actions s (c ∷ cs) = emit (step s c).1 (actions (step s c).0 cs)

-- What may be published from a phase on: ready entries, then draining entries, then one delete.
abbrev pub Orderly : Phase → List PresenceAction → Type 0
Orderly p [] = Unit {0}
Orderly ready (publish_ready ∷ rest) = Orderly ready rest
Orderly ready (publish_draining ∷ rest) = Orderly draining rest
Orderly ready (delete ∷ rest) = Orderly closed rest
Orderly draining (publish_ready ∷ rest) = ⊥
Orderly draining (publish_draining ∷ rest) = Orderly draining rest
Orderly draining (delete ∷ rest) = Orderly closed rest
Orderly closed (a ∷ rest) = ⊥

draining-Orderly : (rest : List PresenceAction) → Orderly draining rest → Orderly ready rest
draining-Orderly [] h = tt
draining-Orderly (publish_ready ∷ rest) h = absurd h
draining-Orderly (publish_draining ∷ rest) h = h
draining-Orderly (delete ∷ rest) h = h

closed-Orderly : (p : Phase) (rest : List PresenceAction) → Orderly closed rest → Orderly p rest
closed-Orderly p [] h = tt
closed-Orderly p (a ∷ rest) h = absurd h

module _ (i : ℕ) (l : Option ℕ) where
  abbrev session : Phase → PresenceSession
  session p = record { interval = i; phase = p; last_publish = l }

  poll-Orderly :
      (p : Phase) (t : ℕ) (rest : List PresenceAction)
      → Orderly (poll (session p) t).0.phase rest
      → Orderly p (emit (poll (session p) t).1 rest)
  unfolding poll
  poll-Orderly ready t rest h = elim (Bool-cases (is_due (next_due (session ready)) t)) [
    | inl e ↦ rw e (rw e at h)
    | inr e ↦ rw e (rw e at h)
  ]
  poll-Orderly draining t rest h = elim (Bool-cases (is_due (next_due (session draining)) t)) [
    | inl e ↦ rw e (rw e at h)
    | inr e ↦ rw e (rw e at h)
  ]
  poll-Orderly closed t rest h = h

  step-Orderly_at :
      (p : Phase) (c : Call) (rest : List PresenceAction)
      → Orderly (step (session p) c).0.phase rest
      → Orderly p (emit (step (session p) c).1 rest)
  unfolding step begin_drain close
  step-Orderly_at p (polls t) rest h = poll-Orderly p t rest h
  step-Orderly_at ready drains rest h = draining-Orderly rest h
  step-Orderly_at draining drains rest h = h
  step-Orderly_at closed drains rest h = h
  step-Orderly_at ready closes rest h = h
  step-Orderly_at draining closes rest h = h
  step-Orderly_at closed closes rest h = h

-- Whatever is called, and at whatever times, a session publishes ready entries first, draining
-- entries only after those, at most one delete, and nothing behind the delete.
pub actions-Orderly : (s : PresenceSession) (cs : List Call) → Orderly s.phase (actions s cs)
unfolding actions
actions-Orderly s [] = tt
actions-Orderly s (c ∷ cs) =
    step-Orderly_at s.interval s.last_publish s.phase c (actions (step s c).0 cs)
      (actions-Orderly (step s c).0 cs)

-- With the interval and the time to live that `new` accepts, the first poll, at the time `t`,
-- publishes the ready entry; the next is then due at `t` plus the interval, before the entry runs
-- out; and a poll at `u` publishes again exactly from that due time on, and else changes nothing.
pub poll_refreshes :
    (ttl interval t u : ℕ) (s : PresenceSession)
    → new ttl interval ≡ ok s
    → let s' = (poll s t).0 in
      ((poll s t).1 ≡ some publish_ready)
      × (next_due s' ≡ at (t + interval))
      × (t + interval < t + ttl)
      × (poll s' u ≡ (
          if leb (t + interval) u
          then (record s' { last_publish = some u }, some publish_ready)
          else (s', none)))
unfolding new poll next_due
poll_refreshes ttl interval t u s e = ground arith

-- A ready session that begins to drain announces it by its next poll, at whatever time, a second
-- call of `begin_drain` changes nothing, and a close deletes the entry once and ends all polls.
pub begin_drain-poll :
    (s : PresenceSession) (t : ℕ)
    → s.phase ≡ ready
    → let closing = close (begin_drain s) in
      ((poll (begin_drain s) t).1 ≡ some publish_draining)
      × (begin_drain (begin_drain s) ≡ begin_drain s)
      × (closing.1 ≡ some delete)
      × (close closing.0 ≡ (closing.0, none))
      × (poll closing.0 t ≡ (closing.0, none))
unfolding poll begin_drain close next_due
begin_drain-poll s t e = ground arith
