-- ===== src/Orca.antt =====
-- decoder/orca_whirlpool: the decoder of Whirlpool swaps. Whole numbers of `math/big` are native
-- numbers, its floating point is a parameter.
pub mod Instruction
pub mod Swap
pub mod Proto
