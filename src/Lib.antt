-- ===== src/Lib.antt =====
-- br-jobs-runner-kit: runners that take jobs from a broker, run them and report what happens.
--
-- The parts and how they interact. A runner process runs one loop (crates/br-jobs-runner-kit). It
-- reads triggers from the broker, claims a slot for each, publishes its start and spawns a task;
-- it hears cancel orders from a bucket, keeps a presence entry alive, and drains on shutdown. The
-- state machines it stands on do no input or output (crates/br-jobs-runner-core). A runner that
-- works for the jobs service sends its writes through a delivery queue (crates/br-runner-jobs,
-- src/queue), which sends one write at a time, holds back what depends on another write, sends
-- again where the service could not be reached, and tells the caller how a write ended. Its book
-- keeps the agents of the run, whose registrations are writes of that queue, and the ends of the
-- children that the run waits for. The toolkit (crates/br-runner-toolkit) drives such a runner
-- with slots that take triggers or claim work, and hands cancel orders on to the runs. What an
-- agent writes into a thread goes to the Threads service (crates/br-runner-threads): as chunks of
-- a stream that a closing seals, through a handle, or through an adapter that makes items of
-- them, keeps each in a store and sends the items of a thread one behind the other.
--
-- What models what:
-- - Core/Backoff, Core/Cancel, Core/Presence and Core/Slots: the files of the same names in
--   crates/br-jobs-runner-core/src. A method that mutates returns the new state.
-- - Kit/RunLoop: crates/br-jobs-runner-kit/src/run_loop.rs. The variables of `run_loop` are the
--   record `Loop`; `round` is one pass of the loop, `select` the branch that the runtime chooses,
--   `accept_trigger` and `execute_run` are the functions of those names. Kit/Facts: context.rs,
--   facts.rs and runner.rs. Kit/Publish: transport/publish.rs. Kit/CancelFeed:
--   transport/cancel.rs.
-- - Jobs/Reason, Jobs/Error, Jobs/Model: crates/br-runner-jobs/src/reason.rs, error.rs, and the
--   parts of model/ and backend.rs that a write carries.
-- - Jobs/Queue: crates/br-runner-jobs/src/queue. Write.antt is write.rs and report.rs, Deps.antt
--   is deps.rs, Shared.antt is shared.rs, Task.antt is task.rs, Handle.antt is mod.rs. `Shared`
--   is the state under the mutex with the reports and ends that were sent out; `Task` is the
--   task's own state; `step` is one call of a handle, one round of the task, one branch of its
--   select!, or its drop.
-- - Jobs/EndWait: crates/br-runner-jobs/src/endwait, and arrival_ended of
--   src/book/mod.rs. Jobs/Book: src/book/agents.rs and
--   book/mod.rs.
-- - Toolkit/Shared: crates/br-runner-toolkit/src/shared.rs and the part of record.rs that it
--   uses; Toolkit/Slot: src/slot.rs.
-- - Threads: crates/br-runner-threads/src. Error.antt, Closing.antt and Wire.antt are error.rs,
--   closing.rs and the closing in wire.rs, over a record `Library` of what the contract's crates
--   do. Stream is stream/shared.rs and writes.rs, Stream/Close is client/close.rs with the
--   machine of a handle. Queue is queue/ and the data of adapter/inner.rs, Adapter is accept.rs
--   and deliver.rs, Adapter/Machine the adapter with all its slots (mod.rs), Adapter/Waits the
--   tests in ops/waits.rs. Turns is adapter/ops/turn.rs, Turns/Calls closing.rs, entries.rs and
--   annotation.rs there. A function that awaits is cut there: `accept_begins` and `accept_ends`,
--   `take_head`, `answered` and `item_removed`, `push_begins` and `push_ends`. The bytes of a
--   kept item are given by what serde_json reads from them, an item or an error, and what it makes
--   of an item is an argument of the event that puts it into the store.
-- - Threads/Draft and Threads/Response: crates/br-runner-threads/src/response, whole.rs and the rest,
--   a response on its way through a lane.
-- - Prelude: the shared types, the tests on numbers, and lists used as sets and maps.
--
-- Choices. A UUID, an instant and a duration are natural numbers (a duration in nanoseconds), a
-- JSON value is a type of which nothing is known. A hash map is an association list, a hash set a
-- list without repetition; no modelled code depends on their order. What the runtime or the
-- broker decides is an event, so a run of a machine is a list of events in any order. The lock of
-- the queue is never held across an await, so a method is one step; `complete` of the jobs queue
-- gives the lock back before it sends the end, and is cut there in `settle` and `send_end`: the
-- machine of the queue takes it as one step, and what `drained` can find in between is stated for
-- every call of it. The load and the store of `stop_claims` are two calls, which others may come
-- between; `claim_step` takes them together. No function runs on fuel: the loops over events and
-- outcomes recurse on the list of them, the search for the next head on the queue, and the attempts of the publisher on their number, which is eight as in the source.
--
-- Not modelled: the bindings to NATS and HTTP, the wire formats, tracing, the texts of errors for
-- display, and the crates br-runner-connection, br-runner-as-node and br-runner-as-tool. Of
-- br-runner-threads: the open responses of a thread, the pace of keepalives (their chunks are calls
-- like any other), and the forgetting of the turns of an instance that ends. A store whose call fails
-- is taken to be as before the call. The counters of u64 are natural numbers, which do not
-- overflow within any run that can happen; the mode epoch of the toolkit and the numbers of an
-- adapter's items wrap around as in the source. A gate and the sending of a write are futures of the
-- caller: what they come to is an event.
pub mod Prelude
pub mod Core
pub mod Jobs
pub mod Kit
pub mod Toolkit
pub mod Threads
