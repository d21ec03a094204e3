-- ===== src/Lib.antt =====
-- A model of the glisp interpreter, a Lisp that is embedded in Go programs, with the theorems that
-- say what its parts do.
--
-- A program's text goes through four parts. The lexer (lexer.go) turns characters into tokens; the
-- parser (parser.go) turns tokens into expressions; the generator (generator.go) turns expressions
-- into instructions; the machine (vm.go, with scopes.go, address.go and part of environment.go)
-- runs them on four stacks (stack.go, datastack.go). Expressions are values of the language too
-- (expressions.go, typeutils.go, listutils.go), on which arithmetic (numerictower.go), comparison
-- (comparisons.go) and the hash tables (hashutils.go) work. The builtin functions (functions.go,
-- strutils.go, arrayutils.go) give these to programs, and the rest of environment.go makes an
-- interpreter with them and loads code into it. Other goroutines queue calls for it (environment.go,
-- waitcond.go), and such a call may fire an event that the interpreter waits for (functions.go). The
-- extensions (extensions/) and the command line (repl/main.go) are packages of their own. All other
-- paths are at the root of the repository.
--
-- Which file models what:
--   Prelude and Prelude/   lists, integers, and `Outcome`: a result, an error that Go code
--                          returns, a panic (also an exit of the process), or a lack of fuel
--   Sexp/Values            the values, the instructions and the functions, in one mutual block
--   Sexp/Kinds             `IsData`, `IsArray`, ..., `IsTruthy`
--   Sexp/Lists             `MakeList`, `ListToArray`, `AppendList`, `ConcatList`, `WalkList`
--   Stack/Array            `Stack`: a slice with a height below its length, each method
--   Stack/Refines          the abstract stack, a list, beside it
--   Numbers/Machine        the operations on float64, a parameter
--   Numbers/Tower          `IntegerDo` and `NumericDo` with all they call
--   Numbers/Words, Errors  ranges and outcomes
--   Compare/Defs           `Compare` with all it calls
--   Compare/Ints, Keys, Reflexive  its properties
--   Hash/Defs              `SexpHash` with its methods, `MakeHash`, `HashExpression`
--   Hash/Buckets, Lookup, Counting, Deletion  its properties
--   Lexer/Tokens           tokens and the recognisers, one for each regular expression
--   Lexer/Machine          `Lexer` with its methods; `LexNextRune` is `lex_next_rune`
--   Lexer/Strings, Atoms, Progress, Potential  its properties
--   Parser/Numerals, Defs  the symbol table, `ParseInt`, and the parsing functions
--   Parser/Fuel, Rounds, Induction, Termination  its properties
--   Vm/State               `Glisp`, the fields that running code uses; what the host gives
--   Vm/Scopes              scopes.go over a store of scopes
--   Vm/Calls               `CallFunction`, `CallUserFunction`, `ReturnFromFunction`, optional
--                          arguments
--   Vm/Execute             the `Execute` methods as `execute`, `Step`, `Run`, `Apply`, `Finish`
--   Vm/Iterate             the folds and maps over lists, arrays and hash tables
--   Vm/Scoping, Closures, Frames, Bounds, Quoting, Iterations  its properties
--   Generator/State        `Generator`, and the error plumbing
--   Generator/Layout       how the code of `and`, `or` and `cond` is put together
--   Generator/Forms, Lets  the `Generate` methods of the special forms
--   Generator/Quotes       `GenerateSyntaxQuote` and its helpers
--   Generator/Includes     `GenerateInclude`, `GenerateImport`
--   Generator/Generate     `Generate`, calls, tail calls, macros, `Duplicate`
--   Vm/Runs                runs of the machine as a relation, and the loop that follows them
--   Generator/Jumps, Clauses, Pieces, CondPieces, TailCalls  the generated code, run
--   Builtins/Arguments     the switches on a function's name and arguments, `IsEmpty`
--   Builtins/Numeric, Types, Access, Tables, Higher, Reading  the functions of functions.go
--   Builtins/Encoding      `make-data`, with the bytes of integers, floats and runes
--   Builtins/Joins         `append` and `concat` with `AppendStr`, `ConcatStr`, `ConcatArray`
--   Builtins/Convert       `ConvertFunction`, `MatchEndFunction`
--   Builtins/Runes         what Go makes of bytes as UTF-8, which is the language's
--   Builtins/Folds         the folds over text and data
--   Builtins/Printing      the `SexpString` methods, and `str`
--   Builtins/Output        `print`, `println`, `plog`, `sleep`
--   Builtins/Table         `BuiltinFunctions`, and the host that it makes for the machine
--   Builtins/Indexing, Integers, Chunks, Sequences, Queries  its properties
--   Builtins/Numerals, Utf8, Reads, Literals  `str` and `read` against each other
--   Loading/State, Load    `NewGlisp`, `Clear`, `Clone`, names; loading, running, sourcing, `eval`
--   Loading/Files          `source-file`
--   Loading/Symbols, Tables, Bindings, Sourcing  its properties
--   Loading/Arithmetic, Generated, Compiled  arithmetic through the generator, the machine and the table
--   Queue/Cond, System     `WaitCond`; `QueueRun` and `CallQueued`, as steps of many goroutines
--   Queue/Order, Draining, Wakeups  its properties
--   Watchers/System        `ReadWatcher` of extensions/watchers.go with its goroutines, as steps
--   Watchers/Ids, Closing  its properties
--   Repl/Reading           `getExpression` and `processDumpCommand` of repl/main.go
--   Repl/Shortest          what is read
--   Debug/Listing          instructions, tokens, the stack and the calls as text
--   Events/Channels, Defs  `EventFunction` and `WaitFunction` on the table `events`
--   Events/Life, Pairing, Waiting  its properties
--
-- State. Go's pointers are kept where something is shared: a scope stack holds references into a
-- store of scopes, since closures share scopes, and a hash value is a reference into a store of
-- tables. The stacks of the machine are lists, the abstract stacks of Stack/Refines; arrays are
-- values, and `aset!` gives the write that it does. Where `slice` reaches behind an array, up to its
-- capacity, what stands there is an argument. Maps are association lists, read by key only; the
-- order of the table of builtin functions, which Go leaves open, is that of a list. A duplicate of
-- an interpreter shares scopes, tables and names with it.
--
-- Numbers. An int has 64 bits and a rune 32, and results wrap around as in Go; only the counts of
-- symbols, and of the instructions and values in memory, are natural numbers. A float is its bit
-- pattern and float arithmetic a parameter, as are the functions and hooks of the host program and
-- the parsing of float literals. Reading a file that a program includes, and parsing it, is a
-- parameter of the generator, which gives the symbols that it leaves. Functions of the host make no
-- symbols. What a macro wrote into shared scopes before it failed is lost.
--
-- Fuel. The parser and the machine's loop take fuel. A lack of it is an outcome of its own, so that
-- it is never taken for a result. The generator's is the depth of the expressions and of the macro
-- expansions; its functions for the special forms take the way back into it as a parameter.
--
-- Each negative index of `aget` takes one round of fuel for each time that the length is added. The
-- host of the builtin functions takes fuel for the depth of calls between machine and table.
--
-- The queue. What the lock of the queue covers is one step; a swap, a close, a test and each write of
-- a wait condition are steps of their own, by any number of producers and one interpreter. The look
-- at the flag with which `CallQueued` begins goes with the step of its lock: only the interpreter
-- clears the flag, so that what producers do between the two is as if done before.
--
-- Events. A channel is a place in a store, since a wait keeps the one that it found. A wait takes the
-- turns of its loop as an argument: the queued calls, which are any functions on the table, and the
-- receives. When the turns are over it still waits, and so does a send to the nil channel.
--
-- The watchers. The count of the watchers is an int that wraps around, and an addition under a
-- number that is in use replaces that watcher. A step of extensions/watchers.go is one shared
-- access; of a call that has tested the flag there is left the value that it sends, and callers are
-- not told apart.
--
-- Not modelled: what reading a file does beside giving its runes, the time that passes, writes into
-- arrays that others share, the collection of the readers, the loop of the command line, and the
-- other extensions, which bind Go's libraries. Quoting, the printing and parsing of
-- floats, `fmt.Sprint` and the conversions between floats and integers are parameters.
pub mod Prelude
pub mod Sexp
pub mod Stack
pub mod Numbers
pub mod Compare
pub mod Hash
pub mod Lexer
pub mod Parser
pub mod Vm
pub mod Generator
pub mod Builtins
pub mod Loading
pub mod Debug
pub mod Events
pub mod Queue
pub mod Repl
pub mod Watchers
