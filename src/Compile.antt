-- ===== src/Compile.antt =====
-- internal/adapters/postgres_compile.go: PostgreSQL for a query.
pub mod Scan
pub mod Fragments
pub mod Filters
pub mod Select
pub mod Operators
pub mod Numbering
pub mod Plain
pub mod Solid
pub mod Statement
pub mod Joins
pub mod Clauses
pub mod Safe
pub mod Limit
pub mod Dropped
pub mod Total
mod Tests
