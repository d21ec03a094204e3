-- ===== src/Loading.antt =====
-- environment.go: making an interpreter, and loading and running code in it.
mod State
mod Load
mod Files
pub mod Symbols
pub mod Tables
pub mod Bindings
pub mod Sourcing
pub mod Arithmetic
pub mod Generated
pub mod Compiled
mod Tests
unfoldable pub use State.*
unfoldable pub use Load.*
unfoldable pub use Files.*
