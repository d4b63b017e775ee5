-- ===== src/Base/Bits.antt =====
-- The bitwise operations: one equation for the lowest digit, laws at any bit position, and the
-- fields of a word.
mod Digits
mod Laws
mod Fields
pub use Laws.*
pub use Fields.*
