-- ===== src/Services.antt =====
-- internal/application/services.go, by use case.
pub mod Ports
pub mod Decks
pub mod Notes
pub mod Pool
pub mod Cleaner
pub mod Memory
pub mod Stable
mod Tests
