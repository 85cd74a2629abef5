-- ===== src/Bignum.antt =====
-- bignum.c: arithmetic on atoms, over scratch arrays of at most 64 limbs.
pub mod Scratch
pub mod Add
pub mod Step
pub mod Compare
pub mod Sub
pub mod Mul
pub mod Decimal
pub mod Print
pub mod Bitwise
pub mod Shift
pub mod Met
