-- ===== src/Lexer/Tokens.antt =====
-- The tokens, and the recognisers of atoms. A text of the lexer is the list of its runes, which is
-- what the source builds it from; `utf8` gives its bytes.
use glisp.Prelude.{
  ℕ, ◌+◌, ◌/◌, ◌%◌, ltb, leb, ◌==◌, Bool, true, false, not, ◌&&◌, ◌||◌, Bytes, bytes_eq, codes,
  List, [], ◌∷◌, ◌++◌, drop, if◌then◌else◌, Outcome, ok, err, ◌>>=◌, invalid_escape,
  not_a_char_literal, unrecognized_atom,
}

abbrev pub Runes : Type 0
Runes = List ℕ

-- The UTF-8 form of one rune, and of a text.
unfoldable pub utf8_rune : ℕ → Bytes
utf8_rune r =
    if ltb r 0x80
    then r ∷ []
    else if ltb r 0x800
    then (0xc0 + r / 64) ∷ (0x80 + r % 64) ∷ []
    else if ltb r 0x10000
    then (0xe0 + r / 4096) ∷ (0x80 + r / 64 % 64) ∷ (0x80 + r % 64) ∷ []
    else (0xf0 + r / 262144) ∷ (0x80 + r / 4096 % 64) ∷ (0x80 + r / 64 % 64) ∷ (0x80 + r % 64) ∷ []

unfoldable pub utf8 : Runes → Bytes
unfolding utf8_rune
utf8 [] = []
utf8 (r ∷ rs) = utf8_rune r ++ utf8 rs

pub data TokenType : Type 0 where
  l_paren r_paren l_square r_square l_curly r_curly dot quote backtick tilde tilde_at : TokenType
  symbol_t bool_t decimal hex oct binary float_t char_t string_t nil_t end_t : TokenType

pub record Token : Type 0 where
  pub typ : TokenType
  pub text : Runes

abbrev pub token : TokenType → Runes → Token
token t s = record { typ = t; text = s }

abbrev pub mark : TokenType → Token
mark t = token t []

abbrev pub is_digit : ℕ → Bool
is_digit c = leb b'0' c && leb c b'9'

abbrev pub is_hex_digit : ℕ → Bool
is_hex_digit c = is_digit c || (leb b'a' c && leb c b'f') || (leb b'A' c && leb c b'F')

abbrev pub is_oct_digit : ℕ → Bool
is_oct_digit c = leb b'0' c && leb c b'7'

abbrev pub is_bin_digit : ℕ → Bool
is_bin_digit c = c == b'0' || c == b'1'

abbrev pub all_runes : (ℕ → Bool) → Runes → Bool
all_runes p [] = true
all_runes p (c ∷ cs) = p c && all_runes p cs

-- `[class]+` over the whole text.
abbrev pub some_runes : (ℕ → Bool) → Runes → Bool
some_runes p [] = false
some_runes p (c ∷ cs) = p c && all_runes p cs

-- `^-?` before a text.
abbrev pub after_minus : Runes → Runes
after_minus [] = []
after_minus (c ∷ cs) = if c == b'-' then cs else c ∷ cs

-- `^0` and a letter, before one or more digits of a class.
abbrev pub prefixed : ℕ → (ℕ → Bool) → Runes → Bool
prefixed letter p (z ∷ l ∷ cs) = (z == b'0') && (l == letter) && some_runes p cs
prefixed letter p _ = false

unfoldable pub is_nil : Runes → Bool
is_nil s = bytes_eq s (codes "nil")

unfoldable pub is_bool : Runes → Bool
is_bool s = bytes_eq s (codes "true") || bytes_eq s (codes "false")

unfoldable pub is_decimal : Runes → Bool
is_decimal s = some_runes is_digit (after_minus s)

unfoldable pub is_hex : Runes → Bool
is_hex = prefixed b'x' is_hex_digit

unfoldable pub is_oct : Runes → Bool
is_oct = prefixed b'o' is_oct_digit

unfoldable pub is_binary : Runes → Bool
is_binary = prefixed b'b' is_bin_digit

unfoldable pub is_symbol_text : Runes → Bool
is_symbol_text = some_runes (λ c. not (c == b'\'') && not (c == b'#'))

-- A `.` of a regular expression is any rune but a newline.
unfoldable pub is_char_text : Runes → Bool
is_char_text (h ∷ c ∷ []) = (h == b'#') && not (c == b'\n')
is_char_text (h ∷ b ∷ c ∷ []) = (h == b'#') && (b == b'\\') && not (c == b'\n')
is_char_text _ = false

-- The three alternatives of `FloatRegex`: `^` binds to the first only, and `$` to the last.
-- `[0-9]+\.` at the start; the flag says whether a digit was seen.
unfoldable pub starts_float : Bool → Runes → Bool
starts_float seen [] = false
starts_float seen (c ∷ cs) = if is_digit c then starts_float true cs else seen && (c == b'.')

-- `\.[0-9]+` anywhere.
unfoldable pub has_fraction : Runes → Bool
has_fraction [] = false
has_fraction (c ∷ []) = false
has_fraction (c ∷ d ∷ cs) = ((c == b'.') && is_digit d) || has_fraction (d ∷ cs)

-- `[eE](-?[0-9]+)$`
abbrev pub is_exponent : Runes → Bool
is_exponent [] = false
is_exponent (c ∷ cs) = (c == b'e' || c == b'E') && some_runes is_digit (after_minus cs)

-- `[0-9]*[eE](-?[0-9]+)$`
unfoldable pub fraction_exponent : Runes → Bool
fraction_exponent [] = false
fraction_exponent (c ∷ cs) = if is_digit c then fraction_exponent cs else is_exponent (c ∷ cs)

-- `[0-9]*(\.[0-9]*)?[eE](-?[0-9]+)$`, once a digit was seen.
unfoldable pub scientific : Runes → Bool
unfolding fraction_exponent
scientific [] = false
scientific (c ∷ cs) =
    if is_digit c
    then scientific cs
    else if c == b'.'
    then fraction_exponent cs
    else is_exponent (c ∷ cs)

-- `[0-9]+(\.[0-9]*)?[eE](-?[0-9]+)$` from some place on.
unfoldable pub ends_scientific : Runes → Bool
unfolding scientific
ends_scientific [] = false
ends_scientific (c ∷ cs) = (is_digit c && scientific cs) || ends_scientific cs

unfoldable pub is_float_text : Runes → Bool
unfolding starts_float has_fraction ends_scientific
is_float_text s = starts_float false (after_minus s) || has_fraction s || ends_scientific s

unfoldable pub escape_char : ℕ → Outcome ℕ
escape_char c =
    if c == b'n'
    then ok b'\n'
    else if c == b'r'
    then ok b'\r'
    else if c == b'a'
    then ok 7
    else if c == b't'
    then ok b'\t'
    else if c == b'\\'
    then ok b'\\'
    else if c == b'"'
    then ok b'"'
    else if c == b'\''
    then ok b'\''
    else if c == b'#'
    then ok b'#'
    else err invalid_escape

unfoldable pub decode_char : Runes → Outcome Runes
unfolding escape_char
decode_char (_ ∷ _ ∷ c ∷ []) = escape_char c >>= λ char. ok (char ∷ [])
decode_char (_ ∷ c ∷ []) = ok (c ∷ [])
decode_char _ = err not_a_char_literal

unfoldable pub decode_atom : Runes → Outcome Token
unfolding is_nil is_bool is_decimal is_hex is_oct is_binary is_float_text is_symbol_text
    is_char_text decode_char
decode_atom atom =
    if bytes_eq atom (codes ".")
    then ok (mark dot)
    else if is_nil atom
    then ok (token nil_t atom)
    else if is_bool atom
    then ok (token bool_t atom)
    else if is_decimal atom
    then ok (token decimal atom)
    else if is_hex atom
    then ok (token hex (drop 2 atom))
    else if is_oct atom
    then ok (token oct (drop 2 atom))
    else if is_binary atom
    then ok (token binary (drop 2 atom))
    else if is_float_text atom
    then ok (token float_t atom)
    else if is_symbol_text atom
    then ok (token symbol_t atom)
    else if is_char_text atom
    then (decode_char atom >>= λ char. ok (token char_t char))
    else err unrecognized_atom

unfoldable pub decode_brace : ℕ → Token
decode_brace c =
    if c == b'('
    then mark l_paren
    else if c == b')'
    then mark r_paren
    else if c == b'['
    then mark l_square
    else if c == b']'
    then mark r_square
    else if c == b'{'
    then mark l_curly
    else if c == b'}'
    then mark r_curly
    else mark end_t
