-- ===== src/Lexer/Tests.antt =====
-- The lexer at concrete texts.
use glisp.Prelude.{codes, [], ◌∷◌, false, err, ◌≡◌, refl, unrecognized_atom}
use glisp.Lexer.Tokens.{token, string_t, decode_atom}
use glisp.Lexer.Machine.{Lexer, normal}
use glisp.Lexer.Strings.{lex_all, lex-string_literal}

abbrev fresh : Lexer
fresh = record {
  state = normal;
  tokens = [];
  buffer = [];
  stream = [];
  linenum = 1;
  finished = false;
}

lex-string_literal_example :
    lex_all fresh (codes "\"a\\\"\\nb\"")
    ≡ lex_all (record fresh { tokens = token string_t (codes "a\"\nb") ∷ [] }) []
lex-string_literal_example = lex-string_literal (codes "a\"\nb") fresh [] refl refl

bad : decode_atom (codes "a#") ≡ err unrecognized_atom
unfolding decode_atom
bad = refl
