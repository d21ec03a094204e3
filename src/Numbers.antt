-- ===== src/Numbers.antt =====
-- numerictower.go: arithmetic on the integers, characters and floats of the language.
mod Machine
mod Tower
pub mod Words
pub mod Errors
mod Tests
unfoldable pub use Machine.*
unfoldable pub use Tower.*
