-- ===== src/Phy/Sig.antt =====
-- crates/s2g-phy/src/sig.rs: the SIG field of S1G_SHORT and the SIG-A field of S1G_LONG PPDUs, as
-- 48 bits. The modulation of the bits onto tones is floating-point and left out.
pub mod Frame48
pub mod Fields
pub mod Verdict
pub mod Parse
pub mod RoundTrip
pub mod MultiUser
pub mod Detect
pub mod Carried
pub mod ShortLoop
pub mod LongLoop
pub mod Supported
mod Tests
