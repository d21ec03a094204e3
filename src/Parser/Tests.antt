-- ===== src/Parser/Tests.antt =====
-- Whole texts, lexed and parsed.
use glisp.Prelude.{
  ◌≢◌, out_of_fuel, arith, ℕ, pos, negsuc, Bytes, codes, List, [], ◌∷◌, Outcome, Option, none, ok,
  panic, ◌>>=◌, ◌≡◌, refl,
}
use glisp.Sexp.{Sexp, pair, array, int, char, str, symbol, sexp_null, make_list, of_list}
use glisp.Lexer.{Runes, new_lexer_from_stream, peek_next_token, get_next_token}
use glisp.Parser.Numerals.{symbol_of}
use glisp.Parser.Termination.{parse_tokens-ends}
use glisp.Parser.Defs.{Parser, parse_tokens}

abbrev start : Runes → Parser
start s = record {
  lexer = new_lexer_from_stream s;
  symbols = record { symtable = []; nextsymbol = 1 };
}

-- No floats in these texts.
abbrev no_float : Runes → Option ℕ
no_float s = none

parse_text : Runes → Outcome (List Sexp)
unfolding parse_tokens new_lexer_from_stream peek_next_token get_next_token
parse_text s = parse_tokens no_float 60 (start s) >>= λ (exprs, _). ok exprs

abbrev sym : Bytes → ℕ → Sexp
sym s n = symbol (symbol_of s n)

parses-call :
    parse_text (codes "(f -12 \"a\\n\" #b [x f]) nil")
    ≡ ok (
        make_list (
          sym (codes "f") 1
          ∷ int (negsuc 11)
          ∷ str (codes "a\n")
          ∷ char (pos b'b')
          ∷ array (of_list (sym (codes "x") 2 ∷ sym (codes "f") 1 ∷ []))
          ∷ [])
        ∷ sexp_null
        ∷ [])
unfolding parse_text make_list
parses-call = refl

parses-dotted :
    parse_text (codes "'(1 . 0x1F)")
    ≡ ok (make_list (sym (codes "quote") 1 ∷ pair (int (pos 1)) (int (pos 31)) ∷ []) ∷ [])
unfolding parse_text make_list
parses-dotted = refl

-- A comment between two atoms glues them.
comment_glues : parse_text (codes "ab;c\ncd ") ≡ ok (sym (codes "abcd") 1 ∷ [])
unfolding parse_text
comment_glues = refl

lone_hash_panics : parse_text (codes "#") ≡ panic
unfolding parse_text
lone_hash_panics = refl

-- A list that is not closed.
parse_tokens-ends_example : parse_tokens no_float 12 (start (codes "(a")) ≢ out_of_fuel
parse_tokens-ends_example =
    parse_tokens-ends no_float (codes "(a") (record { symtable = []; nextsymbol = 1 }) 12
      (omega arith)
