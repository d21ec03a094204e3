-- ===== src/Generator.antt =====
-- generator.go: from expressions to code.
mod State
mod Layout
mod Forms
mod Lets
mod Quotes
mod Includes
mod Generate
pub mod Jumps
pub mod Clauses
pub mod Pieces
pub mod CondPieces
pub mod TailCalls
mod Tests
unfoldable pub use State.*
unfoldable pub use Layout.*
unfoldable pub use Forms.*
unfoldable pub use Lets.*
unfoldable pub use Quotes.*
unfoldable pub use Includes.*
unfoldable pub use Generate.*
