-- ===== src/ClickHouse.antt =====
-- sinks/clickhouse: `Writer` batches rows for the database, `Service` feeds it from the stream.
pub mod Writer
pub mod Connect
pub mod Settings
pub mod Loops
pub mod Service
pub mod Batches
pub mod CandleBatches
