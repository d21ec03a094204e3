-- ===== src/Builtins/Reading.antt =====
-- `ReadFunction` of functions.go: the first expression of a text.
use glisp.Prelude.{ℕ, List, [], ◌∷◌, Option, Outcome, ok, err, ◌>>=◌, wrong_nargs, wrong_type}
use glisp.Sexp.{Sexp, str}
use glisp.Lexer.{Runes, new_lexer_from_stream}
use glisp.Parser.{Symbols, parse_expression}
use glisp.Builtins.Runes.{decode_runes}

-- The symbols of the expression are new symbols of the interpreter.
unfoldable pub read_function :
    (Runes → Option ℕ) → ℕ → List Sexp → Symbols → Outcome (Sexp × Symbols)
unfolding decode_runes parse_expression new_lexer_from_stream
read_function parse_float fuel (str s ∷ []) symbols =
    parse_expression parse_float fuel
      (record { lexer = new_lexer_from_stream (decode_runes s); symbols = symbols })
    >>= λ (e, p). ok (e, p.symbols)
read_function parse_float fuel (_ ∷ []) symbols = err wrong_type
read_function parse_float fuel _ symbols = err wrong_nargs
