-- ===== src/Parquet.antt =====
-- sinks/parquet: the buckets of candles and their uploads.
pub mod Keys
pub mod Writer
pub mod Buckets
pub mod Flushes
pub mod Service
pub mod Settings
