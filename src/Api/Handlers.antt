-- ===== src/Api/Handlers.antt =====
-- The handlers of internal/interfaces/httpapi/server.go, one module for each group of endpoints.
pub mod Decks
pub mod Notes
pub mod Cleaning
pub mod Settings
pub mod Pages
pub mod Stream
