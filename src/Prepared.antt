-- ===== src/Prepared.antt =====
-- engine/prepared/format.go: the prepared artifact's header and section table.
pub mod Words
pub mod Format
pub mod Bounds
pub mod Total
pub mod RoundTrip
pub mod Records
pub mod Ids
pub mod ExactSection
pub mod Frozen
pub mod Gives
pub mod NgramSection
pub mod Config
pub mod View
