-- ===== src/Parser.antt =====
-- parser.go: from tokens to expressions.
mod Numerals
mod Defs
pub mod Fuel
pub mod Rounds
pub mod Induction
pub mod Termination
mod Tests
unfoldable pub use Numerals.*
unfoldable pub use Defs.*
