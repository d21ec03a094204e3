-- ===== src/Queue.antt =====
-- waitcond.go and the queue of environment.go: calls that other goroutines ask the interpreter for.
mod Cond
mod System
pub mod Order
pub mod Draining
pub mod Wakeups
mod Tests
unfoldable pub use Cond.*
unfoldable pub use System.*
