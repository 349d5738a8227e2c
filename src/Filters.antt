-- ===== src/Filters.antt =====
-- The middlewares that filter messages: std/msgfilter.go and std/utils.go.
pub mod Messages
pub mod Prefixes
pub mod Tests
