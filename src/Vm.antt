-- ===== src/Vm.antt =====
-- vm.go, scopes.go and the running part of environment.go: the machine that runs the code of the
-- generator. A stack is the list of its elements, the last pushed first: the abstract stack of
-- `Stack.Refines`. Scopes are shared maps: a stack holds references to them,
-- and their contents stand in a store of their own; so do the hash tables.
mod State
mod Scopes
mod Calls
mod Execute
mod Iterate
pub mod Scoping
pub mod Closures
pub mod Frames
pub mod Bounds
pub mod Quoting
pub mod Runs
pub mod Iterations
mod Tests
unfoldable pub use State.*
unfoldable pub use Scopes.*
unfoldable pub use Calls.*
unfoldable pub use Execute.*
unfoldable pub use Iterate.*
