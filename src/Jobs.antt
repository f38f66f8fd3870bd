-- ===== src/Jobs.antt =====
-- crates/br-runner-jobs: a runner's work for the jobs service.
mod Tests
pub mod Reason
pub mod Error
pub mod Model
pub mod Queue
pub mod EndWait
pub mod Book
