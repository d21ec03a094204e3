-- ===== src/Repl.antt =====
-- repl/main.go: how the command line reads an expression and answers to its commands.
mod Reading
pub mod Shortest
mod Tests
unfoldable pub use Reading.*
