-- ===== src/Stack.antt =====
-- stack.go, datastack.go and address.go: the stack that the interpreter keeps its values, scopes,
-- return addresses and saved scope stacks on. `Array` is the code; `Refines` relates it to a list.
mod Array
mod Refines
mod Tests
unfoldable pub use Array.*
pub use Refines.*
