-- ===== src/Hash.antt =====
-- hashutils.go: the hash tables of the language, by buckets of pairs under a hash value, with the
-- keys in their order of insertion and a counter beside them.
mod Defs
pub mod Buckets
pub mod Lookup
pub mod Counting
pub mod Deletion
mod Tests
unfoldable pub use Defs.*
