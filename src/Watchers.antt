-- ===== src/Watchers.antt =====
-- extensions/watchers.go: a reader, its watchers, and the goroutines that add and remove them.
mod System
pub mod Ids
pub mod Closing
mod Tests
unfoldable pub use System.*
