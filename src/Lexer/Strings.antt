-- ===== src/Lexer/Strings.antt =====
-- String literals and comments, character by character.
use glisp.Prelude.{
  ℕ, ◌==◌, Bool, true, false, [], ◌∷◌, ◌++◌, if◌then◌else◌, Outcome, ok, ◌>>=◌, ◌≡◌, refl, ◌∙◌,
  arith, append-nil, append_assoc, Bool-cases, inl, inr,
}
use glisp.Lexer.Tokens.{Runes, token, string_t, escape_char}
use glisp.Lexer.Machine.{Lexer, normal, comment, str_lit, lex_next_rune, write_rune}

-- The runes of a text, one after the other.
unfoldable pub lex_all : Lexer → Runes → Outcome Lexer
lex_all l [] = ok l
lex_all l (r ∷ rs) = lex_next_rune l r >>= λ l'. lex_all l' rs

-- The letter of the escape for a rune that cannot stand for itself in a literal.
abbrev pub escape_letter : ℕ → ℕ
escape_letter c =
    if c == b'\n'
    then b'n'
    else if c == b'\r'
    then b'r'
    else if c == 7
    then b'a'
    else if c == b'\t'
    then b't'
    else c

abbrev pub needs_escape : ℕ → Bool
needs_escape c =
    if c == b'\n'
    then true
    else if c == b'\r'
    then true
    else if c == 7
    then true
    else if c == b'\t'
    then true
    else if c == b'\\'
    then true
    else c == b'"'

-- The inside of a literal for a text.
abbrev pub escaped : Runes → Runes
escaped [] = []
escaped (c ∷ cs) = (if needs_escape c then b'\\' ∷ escape_letter c ∷ [] else c ∷ []) ++ escaped cs

pub escape_char-letter : (c : ℕ) → needs_escape c ≡ true → escape_char (escape_letter c) ≡ ok c
unfolding escape_char
escape_char-letter c h = ground arith

-- The lexer inside a literal.
abbrev inside : Lexer → Lexer
inside l = record l { state = str_lit }

lex_plain :
    (c : ℕ) (l : Lexer)
    → needs_escape c ≡ false
    → lex_next_rune (inside l) c ≡ ok (inside (write_rune l c))
unfolding lex_next_rune
lex_plain c l h = ground arith

lex_plain_all :
    (c : ℕ) (l : Lexer) (rest : Runes)
    → needs_escape c ≡ false
    → lex_all (inside l) (c ∷ rest) ≡ lex_all (inside (write_rune l c)) rest
unfolding lex_all
lex_plain_all c l rest h = rw (lex_plain c l h)

lex_escape :
    (c : ℕ) (l : Lexer) (rest : Runes)
    → needs_escape c ≡ true
    → lex_all (inside l) (b'\\' ∷ escape_letter c ∷ rest) ≡ lex_all (inside (write_rune l c)) rest
unfolding lex_all lex_next_rune
lex_escape c l rest h = rw (escape_char-letter c h) refl

lex-escaped :
    (s : Runes) (l : Lexer) (rest : Runes)
    → lex_all (inside l) (escaped s ++ rest)
      ≡ lex_all (inside (record l { buffer = l.buffer ++ s })) rest
lex-escaped [] l rest = rw append-nil
lex-escaped (c ∷ cs) l rest = elim (Bool-cases (needs_escape c)) [
  | inl yes_c ↦
      rw yes_c (lex_escape c l _ yes_c ∙ lex-escaped cs (write_rune l c) rest ∙ rw append_assoc)
  | inr no_c ↦
      rw no_c (lex_plain_all c l _ no_c ∙ lex-escaped cs (write_rune l c) rest ∙ rw append_assoc)
]

-- A literal is read back: in the normal state, with no atom begun, a text between quotes with its
-- special runes escaped becomes the string token of that text, and nothing else of the lexer
-- changes.
pub lex-string_literal :
    (s : Runes) (l : Lexer) (rest : Runes)
    → l.state ≡ normal
    → l.buffer ≡ []
    → lex_all l (b'"' ∷ (escaped s ++ b'"' ∷ rest))
      ≡ lex_all
          (record l { tokens = l.tokens ++ token string_t s ∷ []; buffer = []; state = normal })
          rest
unfolding lex_all lex_next_rune
lex-string_literal s l rest st empty =
    rw (st, empty) (lex-escaped s (record l { buffer = [] }) (b'"' ∷ rest) ∙ refl)

-- No line break.
abbrev pub one_line : Runes → Bool
one_line [] = true
one_line (c ∷ cs) = if c == b'\n' then false else one_line cs

lex-comment_body :
    (body : Runes) (l : Lexer) (rest : Runes)
    → one_line body ≡ true
    → lex_all (record l { state = comment }) (body ++ b'\n' ∷ rest)
      ≡ lex_all (record l { state = normal }) rest
unfolding lex_all lex_next_rune
lex-comment_body [] l rest h = refl
lex-comment_body (c ∷ cs) l rest h = elim (Bool-cases (c == b'\n')) [
  | inl nl ↦ cc (rw nl at h)
  | inr ne ↦ rw ne (lex-comment_body cs l rest (rw ne at h))
]

-- In the normal state, a comment with its line break leaves the lexer as it was: the atom before
-- it is not ended, so that it goes on behind the comment, and the line is not counted.
pub lex-comment :
    (body : Runes) (l : Lexer) (rest : Runes)
    → l.state ≡ normal
    → one_line body ≡ true
    → lex_all l (b';' ∷ (body ++ b'\n' ∷ rest)) ≡ lex_all (record l { state = normal }) rest
unfolding lex_all lex_next_rune
lex-comment body l rest st h = rw st (lex-comment_body body l rest h)
