-- ===== src/Mac/Engine.antt =====
-- crates/s2g-mac/src/engine.rs: the MAC engine, a state that callers feed with events and poll.
pub mod Types
pub mod Timing
pub mod Queue
pub mod Access
pub mod Receive
pub mod Events
pub mod Plan
pub mod Poll
pub mod Valid
pub mod Account
pub mod Delay
pub mod Progress
pub mod Medium
pub mod BlockAck
mod Tests
