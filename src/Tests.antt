-- ===== src/Tests.antt =====
-- Tests of the model against runs of the code that can be followed in the source, and each theorem at
-- a concrete input.
mod Canonical
mod SlotCaches
mod Raydium
mod Sinks
mod Connections
mod HeliusClients
mod Streams
mod CandleBridge
mod Parquets
mod ParquetServices
mod Meteora
mod Ingest
mod Backfills
mod Environments
mod Https
mod Replays
mod Publications
mod Bridges
mod Failovers
mod GeyserServices
mod Orcas
