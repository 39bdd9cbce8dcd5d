-- ===== src/Store.antt =====
-- A list's journal on disk: appended to before a mutation is applied, replayed when the list is
-- opened.
pub mod Lines
pub mod Journal
pub mod Replay
pub mod Codec
pub mod Torn
pub mod Append
pub mod Mutate
pub mod Durable
pub mod Reopened
pub mod Serve
pub mod Stamp
