-- ===== src/Mac/Engine/Valid.antt =====
-- engine.rs: what every operation of the engine keeps true.
pub mod Types
pub mod Access
pub mod Receive
pub mod Events
pub mod Poll
pub mod History
