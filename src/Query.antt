-- ===== src/Query.antt =====
-- Reads of an exact-mode list: what a query probes the indexes with.
pub mod Levels
pub mod Terms
pub mod Carriers
pub mod Search
pub mod Collect
pub mod Shown
pub mod Kept
pub mod Level
pub mod Answers
pub mod Cut
pub mod TopK
pub mod Fallback
pub mod Reads
