-- ===== src/Mac/Rate.antt =====
-- crates/s2g-mac/src/rate.rs: per-peer rate control.
pub mod Types
pub mod Hints
pub mod Select
pub mod Report
pub mod Bounds
pub mod Retry
mod Tests
