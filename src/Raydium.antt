-- ===== src/Raydium.antt =====
-- decoder/raydium: `Instruction` is instruction.go, `Swap` parser.go.
pub mod Instruction
pub mod Swap
