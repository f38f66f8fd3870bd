-- ===== src/Kit/RunLoop/Drain.antt =====
-- The loop from its shutdown on.
use br_jobs_runner_kit.Prelude.{
  ◌||◌, ℕ, ◌≡◌, refl, true, not, List, [], Option, none, some, arith, nat_eq, is_some,
}
use br_jobs_runner_kit.Core.Presence.{PresenceSession, PresenceAction, poll, close}
use br_jobs_runner_kit.Kit.RunLoop.{
  Loop, Event, rounds, Branch, publish, is_empty, finish, round, step, run,
}
use br_jobs_runner_kit.Kit.RunLoop.Cases.{cancel_branch_cases, join_branch_cases}
use br_jobs_runner_kit.Kit.RunLoop.Keeps.{Keeps, run-Keeps}

module _ {ℓ} {V : Type ℓ} where
  -- The loop drains, and has announced and answered what `l` has.
  record IsQuiet (l m : Loop V) : Type ℓ where
    drains : is_some m.drain_deadline ≡ true
    announced : m.announced ≡ l.announced
    answers : m.answers ≡ l.answers

  publish-IsQuiet :
      (l m : Loop V) (p : PresenceSession × Option PresenceAction)
      → IsQuiet l m
      → IsQuiet l (publish m p)
  publish-IsQuiet l m (presence, none) h = record {
    drains = h.drains;
    announced = h.announced;
    answers = h.answers;
  }
  publish-IsQuiet l m (presence, some action) h = record {
    drains = h.drains;
    announced = h.announced;
    answers = h.answers;
  }

  IsQuiet-Keeps : (l : Loop V) → Keeps (IsQuiet l)
  unfolding finish
  IsQuiet-Keeps l = record {
    publishes = publish-IsQuiet l;
    drains = λ m deadline e h. absurd (ground (arith, h.drains));
    finishes = λ m h.
        publish-IsQuiet l (record m { ended = true; runs = [] }) (close m.presence)
          (record { drains = h.drains; announced = h.announced; answers = h.answers });
    accepts = λ m frame accepted e h. absurd (ground (arith, h.drains));
    hears = λ m event h.
        cancel_branch_cases (IsQuiet l) m event
          (λ _ _. record { drains = h.drains; announced = h.announced; answers = h.answers })
          (λ _ _. record { drains = h.drains; announced = h.announced; answers = h.answers })
          (λ _. record { drains = h.drains; announced = h.announced; answers = h.answers });
    gathers = λ m r h.
        join_branch_cases (IsQuiet l) m r h
          (λ _. record { drains = h.drains; announced = h.announced; answers = h.answers })
          (λ _. record { drains = h.drains; announced = h.announced; answers = h.answers });
    restages = λ m r st facts h. record {
      drains = h.drains;
      announced = h.announced;
      answers = h.answers;
    };
  }

  publish-ended :
      (l : Loop V) (p : PresenceSession × Option PresenceAction) → (publish l p).ended ≡ l.ended
  publish-ended l (presence, none) = refl
  publish-ended l (presence, some action) = refl

  step-ended :
      (l : Loop V) (now : ℕ) (b : Branch V)
      → is_some l.drain_deadline ≡ true
      → ((step l (rounds now b)).ended || not (is_empty l.runs)) ≡ true
  unfolding step round finish
  step-ended l now b d =
      let polled = publish l (poll l.presence now) in
      ground (
        arith,
        d,
        publish-ended (record polled { ended = true; runs = [] }) (close polled.presence),
      )

  -- From its shutdown on the loop takes no trigger: whatever happens, no further run is announced
  -- and no further delivery answered; and the first round in which no task is left ends the loop.
  pub drain-quiet :
      (l : Loop V) (es : List (Event V)) (now : ℕ) (b : Branch V)
      → is_some l.drain_deadline ≡ true
      → let m = run l es in
        (m.announced ≡ l.announced)
        × (m.answers ≡ l.answers)
        × (((step m (rounds now b)).ended || not (is_empty m.runs)) ≡ true)
  drain-quiet l es now b d =
      let h =
        run-Keeps (IsQuiet-Keeps l) l es
          (record { drains = d; announced = refl; answers = refl }) in
      (h.announced, h.answers, step-ended (run l es) now b h.drains)
