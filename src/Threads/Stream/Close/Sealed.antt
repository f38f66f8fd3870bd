-- ===== src/Threads/Stream/Close/Sealed.antt =====
-- What the seals of a handle count, through writes and closings in any interleaving.
use br_jobs_runner_kit.Threads.Wire.{Chunk}
use br_jobs_runner_kit.Prelude.{Option, if◌then◌else◌}
use br_jobs_runner_kit.Prelude.{
  subst, ℕ, suc, ◌+◌, ◌<◌, ◌≡◌, refl, Bool, true, false, List, [], ◌∷◌, ◌++◌, Option, none, some,
  any, nat_eq, nat_beq, ◌⊎◌, arith, inl, inr, contains, contains-remove, lookup, lookup-put,
  lookup-delete, length, if◌then◌else◌, if_branches, sym,
}
use br_jobs_runner_kit.Threads.Error.{Error, Result, ok, fail}
use br_jobs_runner_kit.Threads.Stream
use br_jobs_runner_kit.Threads.Wire.{Library, Chunk, StreamSeal, Command, seal_of, seal_if}
use br_jobs_runner_kit.Threads.Stream.{
  Closing, waiting, refused, lost, confirmed, not_refused, Core, judge_chunk, push_begins,
  push_with, push_ends, begin_closing, settle, Published,
}
use br_jobs_runner_kit.Threads.Stream.Close.{
  close_command, Handle, Event, pushes, push_over, closes, close_over, step, run, open_handle,
  pushed, closed, settlement,
}

-- The chunks with their numbers.
unfoldable pub numbered_from : ℕ → List Chunk → List (ℕ × Chunk)
numbered_from n [] = []
numbered_from n (chunk ∷ chunks) = (n, chunk) ∷ numbered_from (suc n) chunks

numbered_from-append :
    (n : ℕ) (chunks : List Chunk) (chunk : Chunk)
    → numbered_from n (chunks ++ chunk ∷ [])
      ≡ numbered_from n chunks ++ (n + length chunks, chunk) ∷ []
unfolding numbered_from
numbered_from-append n [] chunk = ground arith
numbered_from-append n (c ∷ chunks) chunk =
    ground (arith, numbered_from-append (suc n) chunks chunk)

-- Whether the command of a closing with this state may still close the message.
abbrev pub stands : Closing → Bool
stands c = not_refused (0, c)

pub stands_none :
    (closings : List (ℕ × Closing)) (id : ℕ) (c : Closing)
    → any not_refused closings ≡ false
    → lookup id closings ≡ some c
    → stands c ≡ false
unfolding lookup
stands_none [] id c h e = cc
stands_none ((j, waiting) ∷ m) id c h e = cc
stands_none ((j, refused) ∷ m) id c h e = ground (arith, stands_none m id c)
stands_none ((j, lost) ∷ m) id c h e = cc
stands_none ((j, confirmed) ∷ m) id c h e = cc

close_command-seal :
    (lib : Library) (core : Core) (c : _) (seal : StreamSeal) (command : Command)
    → close_command lib core c ≡ ok (some seal, command)
    → seal_of lib core.chunks ≡ ok seal
unfolding close_command seal_if
close_command-seal lib core c seal command h = ground arith

pub record IsSealed (lib : Library) (h : Handle) : Type 0 where
  pub numbered : h.published ≡ numbered_from 0 h.core.chunks
  pub fresh :
      (id : ℕ) (c : Closing)
      → lookup id h.core.flags.closings ≡ some c
      → id < h.core.flags.next_closing
  pub awaited :
      (id : ℕ) → contains id h.guards ≡ true → lookup id h.core.flags.closings ≡ some waiting
  pub counted :
      (id : ℕ) (c : Closing) (seal : StreamSeal)
      → lookup id h.core.flags.closings ≡ some c
      → stands c ≡ true
      → lookup id h.seals ≡ some (some seal)
      → seal_of lib h.core.chunks ≡ ok seal

open_handle-IsSealed : (lib : Library) (message_id : ℕ) → IsSealed lib (open_handle message_id)
unfolding open_handle numbered_from contains lookup Stream.new
open_handle-IsSealed lib message_id = record {
  numbered = refl;
  fresh = λ id c e. ground arith;
  awaited = λ id e. cc;
  counted = λ id c seal e s k. cc;
}

-- `push` gives an error and changes nothing, or hands over the next number.
pub push_with-cases :
    (core : Core) (judged : Result (Unit {0})) (build : Result Chunk)
    → ((e : Error) × (push_with core judged build ≡ (core, fail e)))
      ⊎ ((chunk : Chunk) × (judged ≡ ok tt)
          × (push_with core judged build ≡ (
            record core { chunks = core.chunks ++ chunk ∷ [] },
            ok (length core.chunks, chunk),
          )))
unfolding push_with
push_with-cases core (fail e) build = inl (e, refl)
push_with-cases core (ok u) (fail e) = inl (e, refl)
push_with-cases core (ok u) (ok chunk) = inr (chunk, refl, refl)

pub lookup-settle :
    (core : Core) (id j : ℕ) (outcome : Option Closing)
    → lookup j (settle core id outcome).flags.closings
      ≡ (if nat_beq j id then outcome else lookup j core.flags.closings)
unfolding settle
lookup-settle core id j (some outcome) = lookup-put j id outcome core.flags.closings
lookup-settle core id j none = lookup-delete j id core.flags.closings

pub settle_rest :
    (core : Core) (id : ℕ) (outcome : Option Closing)
    → ((settle core id outcome).chunks ≡ core.chunks)
      × ((settle core id outcome).flags.next_closing ≡ core.flags.next_closing)
      × ((settle core id outcome).flags.broken ≡ core.flags.broken)
unfolding settle
settle_rest core id (some outcome) = (refl, refl, refl)
settle_rest core id none = (refl, refl, refl)

close_over-IsSealed :
    (lib : Library) (h : Handle) (id : ℕ) (end : Option (Result (Unit {0})))
    → IsSealed lib h
    → IsSealed lib (step lib h (close_over id end))
unfolding step
close_over-IsSealed lib h id end i =
    if_branches (IsSealed lib) (contains id h.guards)
      (λ e. record {
        numbered = rw (settle_rest h.core id (settlement end)).0 i.numbered;
        fresh = λ j c l. ground (
          arith,
          i.fresh j c,
          i.fresh id waiting,
          i.awaited id,
          lookup-settle h.core id j (settlement end),
          settle_rest h.core id (settlement end),
        );
        awaited = λ j l. ground (
          arith,
          i.awaited j,
          contains-remove j id h.guards,
          lookup-settle h.core id j (settlement end),
        );
        counted = λ j c seal l s k. ground (
          arith,
          i.counted j c seal,
          i.counted j waiting seal,
          i.awaited j,
          lookup-settle h.core id j (settlement end),
          settle_rest h.core id (settlement end),
        );
      })
      λ e. i

pushed-IsSealed :
    (lib : Library) (h : Handle) (chunk : Chunk)
    → IsSealed lib h
    → judge_chunk h.core ≡ ok tt
    → IsSealed lib (
        pushed h (
          record h.core { chunks = h.core.chunks ++ chunk ∷ [] },
          ok (length h.core.chunks, chunk),
        ))
unfolding pushed judge_chunk
pushed-IsSealed lib h chunk i judged = record {
  numbered = ground (arith, numbered_from-append 0 h.core.chunks chunk, i.numbered);
  fresh = λ id c e. i.fresh id c e;
  awaited = λ id e. i.awaited id e;
  counted = λ id c seal e s k. ground (arith, stands_none h.core.flags.closings id c);
}

pushes-IsSealed :
    (lib : Library) (h : Handle) (build : Result Chunk)
    → IsSealed lib h
    → IsSealed lib (step lib h (pushes build))
unfolding step push_begins
pushes-IsSealed lib h build i =
    if_branches (IsSealed lib) h.pushing (λ e. i)
      λ e. elim (push_with-cases h.core (judge_chunk h.core) build) [
        | inl (x, q) ↦
            subst (λ r. IsSealed lib (pushed h r)) (sym q)
              (record {
                numbered = i.numbered;
                fresh = i.fresh;
                awaited = i.awaited;
                counted = i.counted;
              })
        | inr (chunk, judged, q) ↦
            subst (λ r. IsSealed lib (pushed h r)) (sym q) (pushed-IsSealed lib h chunk i judged)
      ]

push_ends-IsSealed :
    (lib : Library) (h : Handle) (how : Published)
    → IsSealed lib h
    → IsSealed lib (record h { core = (push_ends h.core how).0; pushing = false })
unfolding push_ends Stream.break_handle
push_ends-IsSealed lib h Stream.taken i = record {
  numbered = i.numbered;
  fresh = i.fresh;
  awaited = i.awaited;
  counted = i.counted;
}
push_ends-IsSealed lib h _ i = record {
  numbered = i.numbered;
  fresh = i.fresh;
  awaited = i.awaited;
  counted = i.counted;
}

push_over-IsSealed :
    (lib : Library) (h : Handle) (how : Published)
    → IsSealed lib h
    → IsSealed lib (step lib h (push_over how))
unfolding step
push_over-IsSealed lib h how i =
    if_branches (IsSealed lib) h.pushing (λ e. push_ends-IsSealed lib h how i) λ e. i

closed-IsSealed :
    (lib : Library) (h : Handle) (seal : Option StreamSeal) (command : Command)
    → IsSealed lib h
    → ((s : StreamSeal) → seal ≡ some s → seal_of lib h.core.chunks ≡ ok s)
    → IsSealed lib (closed h (ok (seal, command)))
unfolding closed begin_closing contains
closed-IsSealed lib h seal command i s = record {
  numbered = i.numbered;
  fresh = λ id c l.
      ground (
        arith,
        i.fresh id c,
        lookup-put id h.core.flags.next_closing waiting h.core.flags.closings,
      );
  awaited = λ id l.
      ground (
        arith,
        i.awaited id,
        lookup-put id h.core.flags.next_closing waiting h.core.flags.closings,
      );
  counted = λ id c k l u m. ground (
    arith,
    s k,
    i.counted id c k,
    i.fresh id c,
    lookup-put id h.core.flags.next_closing waiting h.core.flags.closings,
    lookup-put id h.core.flags.next_closing seal h.seals,
  );
}

closed_by :
    (lib : Library) (h : Handle) (made : Result (Option StreamSeal × Command))
    → IsSealed lib h
    → ((seal : StreamSeal) (command : Command)
        → made ≡ ok (some seal, command)
        → seal_of lib h.core.chunks ≡ ok seal)
    → IsSealed lib (closed h made)
unfolding closed
closed_by lib h (fail e) i s = i
closed_by lib h (ok (none, command)) i s = closed-IsSealed lib h none command i (λ k q. cc)
closed_by lib h (ok (some seal, command)) i s =
    closed-IsSealed lib h (some seal) command i (λ k q. ground (arith, s seal command refl))

closes-IsSealed :
    (lib : Library) (h : Handle) (c : _) → IsSealed lib h → IsSealed lib (step lib h (closes c))
unfolding step
closes-IsSealed lib h c i =
    if_branches (IsSealed lib) h.pushing (λ e. i)
      λ e.
        closed_by lib h (close_command lib h.core c) i
          (λ s k q. close_command-seal lib h.core c s k q)

pub step-IsSealed :
    (lib : Library) (h : Handle) (e : Event) → IsSealed lib h → IsSealed lib (step lib h e)
step-IsSealed lib h (pushes build) i = pushes-IsSealed lib h build i
step-IsSealed lib h (push_over how) i = push_over-IsSealed lib h how i
step-IsSealed lib h (closes c) i = closes-IsSealed lib h c i
step-IsSealed lib h (close_over id end) i = close_over-IsSealed lib h id end i

run-IsSealed :
    (lib : Library) (es : List Event) (h : Handle) → IsSealed lib h → IsSealed lib (run lib h es)
unfolding run
run-IsSealed lib [] h i = i
run-IsSealed lib (e ∷ es) h i = run-IsSealed lib es (step lib h e) (step-IsSealed lib h e i)

pub reached :
    (lib : Library) (message_id : ℕ) (es : List Event)
    → IsSealed lib (run lib (open_handle message_id) es)
reached lib message_id es =
    run-IsSealed lib es (open_handle message_id) (open_handle-IsSealed lib message_id)

-- The seal of a closing, if its command may still close the message.
abbrev pub seal_if_stands : Option Closing → Option (Option StreamSeal) → Option StreamSeal
seal_if_stands (some c) (some (some seal)) = if stands c then some seal else none
seal_if_stands _ _ = none

abbrev pub standing_seal : Handle → ℕ → Option StreamSeal
standing_seal h id = seal_if_stands (lookup id h.core.flags.closings) (lookup id h.seals)

-- A seal is that of these chunks.
abbrev pub Seals : Library → List Chunk → Option StreamSeal → Type 0
Seals lib chunks none = Unit
Seals lib chunks (some seal) = seal_of lib chunks ≡ ok seal

seal_if_stands-Seals :
    (lib : Library) (chunks : List Chunk) (o : Option Closing) (k : Option (Option StreamSeal))
    → ((c : Closing) (seal : StreamSeal)
        → o ≡ some c
        → stands c ≡ true
        → k ≡ some (some seal)
        → seal_of lib chunks ≡ ok seal)
    → Seals lib chunks (seal_if_stands o k)
seal_if_stands-Seals lib chunks none k h = tt
seal_if_stands-Seals lib chunks (some c) none h = tt
seal_if_stands-Seals lib chunks (some c) (some none) h = tt
seal_if_stands-Seals lib chunks (some c) (some (some seal)) h =
    if_branches (Seals lib chunks) (stands c) (λ q. h c seal refl q refl) (λ q. tt)

-- However writes and closings of a stream interleave: the chunks that were handed over are numbered
-- from zero without a gap, and the seal of each closing that is on its way, lost or confirmed, if
-- it has one, is that of all the chunks.
pub run-sealed :
    (lib : Library) (message_id : ℕ) (es : List Event) (id : ℕ)
    → let h = run lib (open_handle message_id) es in
      (h.published ≡ numbered_from 0 h.core.chunks) × Seals lib h.core.chunks (standing_seal h id)
run-sealed lib message_id es id =
    let i = reached lib message_id es in
    let h = run lib (open_handle message_id) es in
    (
      i.numbered,
      seal_if_stands-Seals lib h.core.chunks (lookup id h.core.flags.closings) (lookup id h.seals)
          (λ c seal l s k. i.counted id c seal l s k),
    )
