-- ===== src/Numerics.antt =====
-- src/ikarus-numerics.c
pub mod Words
pub mod Limbs
pub mod Mpn
pub mod Bignum
pub mod Normalize
pub mod Magnitude
pub mod Sum
pub mod Difference
pub mod Opposite
pub mod Addition
pub mod Subtraction
pub mod Product
pub mod Fixnums
pub mod Conjunction
pub mod Comparison
pub mod Shifts
pub mod Modulo
pub mod Complement
pub mod Division
pub mod Tests
