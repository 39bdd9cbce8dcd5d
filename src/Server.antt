-- ===== src/Server.antt =====
-- server/admit.go: the admission of queries.
pub mod Admit
pub mod Budget
