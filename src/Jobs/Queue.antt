-- ===== src/Jobs/Queue.antt =====
-- crates/br-runner-jobs/src/queue: the delivery queue of one run.
pub mod Write
pub mod Deps
pub mod Shared
pub mod Task
pub mod Handle
