-- ===== src/Ingest.antt =====
-- The resolver of mapping paths in ingested records.
pub mod Node
pub mod Resolve
pub mod Leads
pub mod Reached
pub mod Common
