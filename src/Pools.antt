-- ===== src/Pools.antt =====
-- ingestor/internal/pools: the accounts that pool metadata is read from. `Orca` is orca.go, `Raydium`
-- raydium.go.
pub mod Orca
pub mod Raydium
