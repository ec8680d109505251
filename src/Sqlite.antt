-- ===== src/Sqlite.antt =====
-- internal/infrastructure/sqlite/db.go.
pub mod Pragmas
pub mod Connection
pub mod Transaction
pub mod Queries
pub mod Repositories
pub mod Models
mod Tests
