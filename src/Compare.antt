-- ===== src/Compare.antt =====
-- comparisons.go: the order of the values, by which `=`, `<` and the hash buckets go.
mod Defs
pub mod Ints
pub mod Keys
pub mod Reflexive
mod Tests
unfoldable pub use Defs.*
