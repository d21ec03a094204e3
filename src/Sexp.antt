-- ===== src/Sexp.antt =====
-- expressions.go, typeutils.go and the constructors of functions.go: the values of the language.
-- The mutual block closes the circle that the source closes by interfaces and slices: a value may
-- be a function, a function holds instructions, and an instruction may hold a value.
-- Go text is a list of bytes. A `SexpFloat` is its 64-bit pattern, a `SexpInt` an integer of 64
-- bits, a `SexpChar` one of 32. Arrays are values: what is modelled never writes into one.
-- A hash is a reference: `SexpHash` holds pointers only, so that its copies share their state.
mod Values
mod Kinds
mod Lists
mod Tests
unfoldable pub use Values.*
unfoldable pub use Kinds.*
unfoldable pub use Lists.*
