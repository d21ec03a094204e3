-- ===== src/Lexer/Machine.antt =====
-- The lexer's state and its transitions. A step that returns an error leaves the state as it was.
use glisp.Prelude.{
  ℕ, ◌+◌, ltb, ◌==◌, Bool, true, false, ◌||◌, List, [], ◌∷◌, ◌++◌, length, drop, if◌then◌else◌,
  Outcome, ok, err, panic, ◌>>=◌, unexpected_quote, unexpected_backtick, unexpected_tilde,
}
use glisp.Lexer.Tokens.{
  Runes, Token, TokenType, token, mark, end_t, quote, backtick, tilde, tilde_at, string_t,
  escape_char, decode_atom, decode_brace,
}

pub data LexerState : Type 0 where
  normal comment str_lit str_escaped unquote : LexerState

pub record Lexer : Type 0 where
  pub state : LexerState
  pub tokens : List Token
  pub buffer : Runes
  pub stream : Runes
  pub linenum : ℕ
  pub finished : Bool

unfoldable pub new_lexer_from_stream : Runes → Lexer
new_lexer_from_stream stream = record {
  state = normal;
  tokens = [];
  buffer = [];
  stream = stream;
  linenum = 1;
  finished = false;
}

abbrev pub buffered : Lexer → Bool
buffered l = ltb 0 (length l.buffer)

abbrev pub emit : Lexer → Token → Lexer
emit l t = record l { tokens = l.tokens ++ t ∷ [] }

unfoldable pub dump_buffer : Lexer → Outcome Lexer
unfolding decode_atom
dump_buffer l =
    if buffered l
    then (decode_atom l.buffer >>= λ tok.
        ok (record l { buffer = []; tokens = l.tokens ++ tok ∷ [] }))
    else ok l

unfoldable pub dump_string : Lexer → Lexer
dump_string l = record l { buffer = []; tokens = l.tokens ++ token string_t l.buffer ∷ [] }

abbrev pub is_brace : ℕ → Bool
is_brace r = r == b'(' || r == b')' || r == b'[' || r == b']' || r == b'{' || r == b'}'

abbrev pub is_space : ℕ → Bool
is_space r = r == b' ' || r == b'\n' || r == b'\t' || r == b'\r'

abbrev pub write_rune : Lexer → ℕ → Lexer
write_rune l r = record l { buffer = l.buffer ++ r ∷ [] }

-- The part of `LexNextRune` for the normal state.
unfoldable pub lex_normal : Lexer → ℕ → Outcome Lexer
unfolding dump_buffer decode_brace
lex_normal l r =
    if r == b'"'
    then (if buffered l then err unexpected_quote else ok (record l { state = str_lit }))
    else if r == b';'
    then ok (record l { state = comment })
    else if r == b'\''
    then (if buffered l then err unexpected_quote else ok (emit l (mark quote)))
    else if r == b'`'
    then (if buffered l then err unexpected_backtick else ok (emit l (mark backtick)))
    else if r == b'~'
    then (if buffered l then err unexpected_tilde else ok (record l { state = unquote }))
    else if is_brace r
    then (dump_buffer l >>= λ l'. ok (emit l' (decode_brace r)))
    else if is_space r
    then dump_buffer (record l { linenum = if r == b'\n' then l.linenum + 1 else l.linenum })
    else ok (write_rune l r)

unfoldable pub lex_in : LexerState → Lexer → ℕ → Outcome Lexer
unfolding lex_normal dump_string escape_char
lex_in comment l r = ok (if r == b'\n' then record l { state = normal } else l)
lex_in str_lit l r =
    if r == b'\\'
    then ok (record l { state = str_escaped })
    else if r == b'"'
    then ok (record (dump_string l) { state = normal })
    else ok (write_rune l r)
lex_in str_escaped l r =
    escape_char r >>= λ char. ok (record (write_rune l char) { state = str_lit })
lex_in unquote l r =
    ok (record (if r == b'@' then emit l (mark tilde_at) else write_rune (emit l (mark tilde)) r) {
      state = normal;
    })
lex_in normal l r = lex_normal l r

unfoldable pub lex_next_rune : Lexer → ℕ → Outcome Lexer
unfolding lex_in
lex_next_rune l r = lex_in l.state l r

-- `PeekNextToken` at the end of the stream: the error of `dumpBuffer` is dropped, and with no
-- token `lexer.tokens[0]` panics.
unfoldable pub peek_end : Lexer → Outcome (Token × Lexer)
unfolding dump_buffer
peek_end l =
    if buffered l
    then elim (dump_buffer l) [
      | ok l' ↦ elim l'.tokens [ [] ↦ panic | tok ∷ _ ↦ ok (tok, l') ]
      | _ ↦ elim l.tokens [ [] ↦ panic | tok ∷ _ ↦ ok (tok, l) ]
    ]
    else ok (mark end_t, l)

-- Its loop: runes are read until there is a token.
unfoldable pub read_runes : Runes → Lexer → List Token → Outcome (Token × Lexer)
unfolding peek_end lex_next_rune
read_runes stream l (tok ∷ toks) = ok (tok, record l { stream = stream })
read_runes [] l [] = peek_end (record l { stream = []; finished = true })
read_runes (r ∷ rest) l [] = lex_next_rune l r >>= λ l'. read_runes rest l' l'.tokens

unfoldable pub peek_next_token : Lexer → Outcome (Token × Lexer)
unfolding read_runes
peek_next_token l = if l.finished then ok (mark end_t, l) else read_runes l.stream l l.tokens

abbrev pub is_end : TokenType → Bool
is_end end_t = true
is_end _ = false

unfoldable pub get_next_token : Lexer → Outcome (Token × Lexer)
unfolding peek_next_token
get_next_token l = peek_next_token l >>= λ (tok, l').
    ok (if is_end tok.typ then (mark end_t, l') else (tok, record l' { tokens = drop 1 l'.tokens }))
