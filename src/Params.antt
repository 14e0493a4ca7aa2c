-- ===== src/Params.antt =====
-- Values of parameters and dashboard filters in a query: internal/core/queryir/apply.go for the visual
-- query, internal/core/queryir/native.go for SQL with {{name}} and [[optional blocks]].
pub mod Dates
pub mod Mapped
pub mod Tokens
pub mod Native
pub mod Tests
