-- ===== src/Meteora.antt =====
-- decoder/meteora: `Types` is types.go; `Balances`, `Logs` and `Decoder` are decoder.go.
pub mod Types
pub mod Balances
pub mod Logs
pub mod Decoder
pub mod Amounts
pub mod Proto
