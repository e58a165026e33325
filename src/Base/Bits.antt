-- ===== src/Base/Bits.antt =====
-- Laws of the binary operations of C at variables.
mod Digits
pub mod Xor
pub mod Fields
pub mod Places
