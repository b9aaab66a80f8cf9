-- ===== src/Common/Bits.antt =====
-- Laws of `|`, `&` and `^` at variables, from the recursion on binary digits.
pub mod Step
pub mod Fields
pub mod Xor
