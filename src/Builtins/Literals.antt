-- ===== src/Builtins/Literals.antt =====
-- `ReadFunction` of functions.go on a string literal: the bytes, the lexer's escapes (lexer.go) and
-- the parser's string branch (parser.go).
use glisp.Prelude.{false, [], ◌∷◌, ◌++◌}
use glisp.Lexer.{Runes, token, string_t, Lexer, normal, str_lit}
use glisp.Lexer.Strings.{escaped}

-- The lexer inside the literal that a text starts with.
abbrev in_literal : Runes → Runes → Lexer
in_literal buffer stream = record {
  state = str_lit;
  tokens = [];
  buffer = buffer;
  stream = stream;
  linenum = 1;
  finished = false;
}

-- The same behind the literal.
abbrev behind_literal : Runes → Runes → Lexer
behind_literal s rest = record {
  state = normal;
  tokens = token string_t s ∷ [];
  buffer = [];
  stream = rest;
  linenum = 1;
  finished = false;
}

abbrev pub literal : Runes → Runes
literal s = b'"' ∷ (escaped s ++ b'"' ∷ [])
