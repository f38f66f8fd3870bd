-- ===== src/Core.antt =====
-- crates/br-jobs-runner-core: the four state machines of a runner that do no input or output.
mod Tests
pub mod Backoff
pub mod Cancel
pub mod Presence
pub mod Slots
