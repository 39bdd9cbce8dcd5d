-- ===== src/Exact.antt =====
-- engine/exact/exact.go: the normalized-exact index, analyzed key to entry ordinals.
pub mod Index
pub mod Build
pub mod Runs
pub mod Compaction
pub mod Answers
