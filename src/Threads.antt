-- ===== src/Threads.antt =====
-- crates/br-runner-threads: the stream of chunks of a message and its closing, and the delivery
-- queue that the adapter keeps for each thread.
pub mod Error
pub mod Closing
pub mod Wire
pub mod Stream
pub mod Queue
pub mod Adapter
pub mod Turns
pub mod Draft
pub mod Response
mod Tests
