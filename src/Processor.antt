-- ===== src/Processor.antt =====
-- ingestor/geyser/processor.go: `State` is the processor and its publications, `Slots` what a slot's
-- status does, `Updates` the handlers of the stream's updates.
pub mod State
pub mod Log
pub mod Slots
pub mod Updates
pub mod Safety
pub mod Settled
