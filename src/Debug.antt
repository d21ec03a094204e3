-- ===== src/Debug.antt =====
-- What the interpreter prints of itself: `InstrString` of vm.go, `Token.String` of lexer.go, and the
-- dumps and the stack trace of environment.go.
mod Listing
mod Tests
unfoldable pub use Listing.*
