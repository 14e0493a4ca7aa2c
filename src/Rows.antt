-- ===== src/Rows.antt =====
-- internal/adapters/query_limits.go: how much of a result is kept.
pub mod Utf8
pub mod Boundary
pub mod Scan
pub mod Bounds
pub mod Whole
pub mod Tests
