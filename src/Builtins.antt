-- ===== src/Builtins.antt =====
-- functions.go, with strutils.go and parts of arrayutils.go and expressions.go: the functions that a
-- new interpreter binds. A function of the source gets the interpreter, its own name and its
-- arguments; here it gets the parts of the interpreter that it reads, and one that changes them
-- returns them.
mod Arguments
mod Numeric
mod Types
mod Access
mod Encoding
mod Joins
mod Tables
mod Convert
mod Runes
mod Folds
mod Higher
mod Reading
mod Printing
mod Output
mod Table
pub mod Indexing
pub mod Integers
pub mod Chunks
pub mod Utf8
pub mod Numerals
pub mod Reads
pub mod Literals
pub mod Sequences
pub mod Queries
mod Tests
unfoldable pub use Arguments.*
unfoldable pub use Numeric.*
unfoldable pub use Types.*
unfoldable pub use Access.*
unfoldable pub use Encoding.*
unfoldable pub use Joins.*
unfoldable pub use Tables.*
unfoldable pub use Convert.*
unfoldable pub use Runes.*
unfoldable pub use Folds.*
unfoldable pub use Higher.*
unfoldable pub use Reading.*
unfoldable pub use Printing.*
unfoldable pub use Output.*
unfoldable pub use Table.*
