-- ===== src/Live.antt =====
-- engine/list.go and engine/journal.go: a list's base, overlay and tombstones, and the mutations.
pub mod Types
pub mod Segment
pub mod Mutate
pub mod View
pub mod Fold
pub mod Dedupe
pub mod Sound
pub mod Coherent
pub mod Sorted
