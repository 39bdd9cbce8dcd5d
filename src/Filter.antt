-- ===== src/Filter.antt =====
-- engine/typed_filter.go and engine/filter.go: typed query filters and their canonical numbers.
pub mod Number
pub mod Value
pub mod Compare
pub mod Swap
