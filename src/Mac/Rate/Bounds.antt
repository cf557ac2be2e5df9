-- ===== src/Mac/Rate/Bounds.antt =====
-- rate.rs: the ranges that the controller keeps, whatever the floating-point arithmetic does.
pub mod Ladder
pub mod Peers
pub mod Control
pub mod History
