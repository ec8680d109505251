-- ===== src/Api.antt =====
-- internal/interfaces/httpapi: the HTTP API.
pub mod Errors
pub mod Operations
pub mod Logs
pub mod Helpers
pub mod Site
pub mod Handlers
pub mod Routes
pub mod Server
