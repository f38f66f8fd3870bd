-- ===== src/Toolkit.antt =====
-- crates/br-runner-toolkit: the state that the slots of a toolkit runner share, and one slot.
pub mod Shared
pub mod Slot
mod Tests
