-- ===== src/Oee.antt =====
-- internal/modules/oee: machine states, availability, shifts and the ingestion of state changes.
pub mod State
pub mod Spans
pub mod Availability
pub mod Shift
pub mod Ingest
pub mod Live
pub mod Query
pub mod Hub
pub mod Sinks
