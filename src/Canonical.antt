-- ===== src/Canonical.antt =====
-- decoder/common: which mint of a pair is the base and which the quote. `Pair` is pair.go,
-- `Metadata` mint_metadata.go.
pub mod Pair
pub mod Metadata
