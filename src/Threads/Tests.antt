-- ===== src/Threads/Tests.antt =====
-- The theorems on crates/br-runner-threads at concrete inputs.
mod Queues
mod Responses
use br_jobs_runner_kit.Threads.Stream.Close.Sealed.{Seals, standing_seal}
use Prim.Native.String.{String}
use br_jobs_runner_kit.Prelude.{
  ℕ, ◌+◌, ◌≤◌, ◌≡◌, ◌≢◌, refl, Bool, true, false, List, [], ◌∷◌, Option, none, some, is_some, count,
  nat_eq, lookup, put, delete, contains, remove, Sub, All, if◌then◌else◌, length, any,
}
use br_jobs_runner_kit.Threads.Error.{Result, ok, fail, invalid_input, stream_broken}
use br_jobs_runner_kit.Threads.Closing
use br_jobs_runner_kit.Threads.Wire.{
  complete, Library, Chunk, keepalive, content, completed, failed, StreamSeal, Command, StoreParts,
}
use br_jobs_runner_kit.Threads.Stream.{
  Core, any_confirmed, judge_chunk, push_begins, push_with, push_ends, break_handle, begin_closing,
  settle, taken, waiting, not_taken,
}
use br_jobs_runner_kit.Threads.Stream
use br_jobs_runner_kit.Threads.Stream.Close.{
  Handle, Event, pushes, push_over, closes, close_over, open_handle, step, run, pushed, closed,
  settlement,
}
use br_jobs_runner_kit.Threads.Stream.Close.Sealed.{numbered_from, stands, run-sealed}
use br_jobs_runner_kit.Threads.Stream.Close.Frozen.{is_ended, run-frozen}

-- A library that hashes a stream to its length and takes every id and text.
abbrev pub library : Library
library = record {
  seal_hash = λ chunks. ok (length chunks);
  is_v7 = λ id. true;
  with_detail = λ r text. ok r;
  failed_with = λ text. ok (failed (some text));
  json = λ r. ok 0;
}

abbrev closing_request : Closing.Closing
closing_request = record {
  command_id = 7;
  thread_id = 1;
  message_id = 4;
  kind = Closing.completed;
  detail = none;
  acting_user_id = none;
}

abbrev stream_events : List Event
stream_events =
    pushes (ok (content 9))
    ∷ push_over taken
    ∷ pushes (ok keepalive)
    ∷ push_over taken
    ∷ closes closing_request
    ∷ pushes (ok keepalive)
    ∷ []

abbrev full_seal : StreamSeal
full_seal = record { last_seq = 1; hash = 2 }

run-sealed_example :
    let h = run library (open_handle 4) stream_events in
    (h.published ≡ numbered_from 0 h.core.chunks) × Seals library h.core.chunks (standing_seal h 0)
run-sealed_example = run-sealed library 4 stream_events 0

abbrev broken_events : List Event
broken_events = pushes (ok (content 9)) ∷ push_over not_taken ∷ []

stream-ended : is_ended (run library (open_handle 4) broken_events).core 0 ≡ true
unfolding is_ended run step open_handle pushed push_begins push_with push_ends judge_chunk
    break_handle any_confirmed lookup Stream.new
stream-ended = refl

run-frozen_example :
    let h = run library (open_handle 4) broken_events in
    ((run library h (pushes (ok keepalive) ∷ [])).published ≡ h.published)
    × (judge_chunk (run library h (pushes (ok keepalive) ∷ [])).core ≢ ok tt)
run-frozen_example = run-frozen library 4 broken_events (pushes (ok keepalive) ∷ []) 0 stream-ended

abbrev two_chunks : Core
two_chunks = record {
  message_id = 4;
  chunks = content 9 ∷ keepalive ∷ [];
  flags = record { broken = false; closings = []; next_closing = 0 };
}

abbrev complete_command : Command
complete_command = record {
  id = 7;
  body = complete (record {
    message_id = 4;
    thread_id = 1;
    seal = some full_seal;
    closure = 0;
    acting_user_id = none;
  });
}
