-- ===== src/Cli.antt =====
-- internal/interfaces/cli: the command line.
pub mod Terminal
pub mod Escapes
pub mod Reading
pub mod App
pub mod Menu
mod Tests
