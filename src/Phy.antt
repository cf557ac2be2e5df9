-- ===== src/Phy.antt =====
-- crates/s2g-phy: the integer part of the PHY.
pub mod Bits
pub mod Params
pub mod Vector
pub mod Sig
pub mod Scrambler
pub mod Bcc
pub mod Interleaver
pub mod Ldpc
pub mod Tx
