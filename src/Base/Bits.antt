-- ===== src/Base/Bits.antt =====
-- `&`, `|` and `^` on words: one equation for the lowest digit, fields, masks, and the group laws
-- of `^`, at every width.
mod Step
mod Xor
mod Fields
pub use Step.*
pub use Xor.*
pub use Fields.*
mod Digit
pub use Digit.*
