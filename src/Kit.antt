-- ===== src/Kit.antt =====
-- crates/br-jobs-runner-kit: the loop of a runner process, over the core's parts.
mod Tests
pub mod Facts
pub mod RunLoop
pub mod Publish
pub mod CancelFeed
