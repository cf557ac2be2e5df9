-- ===== src/Mac.antt =====
-- crates/s2g-mac: the MAC layer.
pub mod Fcs
pub mod Addr
pub mod Eth
pub mod Frame
pub mod Ndp
pub mod Filter
pub mod Ampdu
pub mod Rate
pub mod Ident
pub mod Engine
