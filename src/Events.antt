-- ===== src/Events.antt =====
-- The events of functions.go: `EventFunction`, `WaitFunction` and the table `events` that they share
-- by way of the package.
mod Channels
mod Defs
pub mod Life
pub mod Pairing
pub mod Waiting
mod Tests
unfoldable pub use Channels.*
unfoldable pub use Defs.*
