-- ===== src/Lexer.antt =====
-- lexer.go: from characters to tokens.
mod Tokens
mod Machine
pub mod Strings
pub mod Atoms
pub mod Progress
pub mod Potential
mod Tests
unfoldable pub use Tokens.*
unfoldable pub use Machine.*
