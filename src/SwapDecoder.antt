-- ===== src/SwapDecoder.antt =====
-- ingestor/decoder/decoder.go: `State` is the decoder with its accounts and slots, `Vaults` the token
-- balances of a transaction, `Swaps` the three programs' swaps, `Decode` the whole transaction.
pub mod State
pub mod Vaults
pub mod Swaps
pub mod Decode
pub mod Fees
pub mod Events
