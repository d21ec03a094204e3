-- ===== src/Builtins/Reads.antt =====
-- `StringifyFunction` and `ReadFunction` of functions.go against each other, on integers: printer,
-- lexer (lexer.go) and parser (parser.go) together.
use glisp.Prelude.{
  ℕ, zero, suc, ◌+◌, ◌/◌, ◌%◌, ◌<◌, lt→ltb, ◌==◌, ℤ, pos, negsuc, Fits, Bool, true, false, ◌&&◌,
  ◌||◌, Bytes, List, [], ◌∷◌, ◌++◌, append-nil, drop, append_assoc, All, Option, ok, ◌>>=◌,
  if◌then◌else◌, inl, ◌≡◌, refl, sym, ap, ◌∙◌, arith,
}
use glisp.Sexp.{int, str}
use glisp.Hash.{Hash}
use glisp.Lexer.Atoms.{decode_atom-digits}
use glisp.Lexer.{
  Runes, utf8, utf8_rune, Token, token, decimal, is_digit, all_runes, some_runes, decode_atom,
  Lexer, normal, lex_next_rune, buffered, is_end, peek_end, read_runes, peek_next_token,
  get_next_token, new_lexer_from_stream,
}
use glisp.Parser.{Symbols, parse_int, parse_expression}
use glisp.Generator.{itoa_digits}
use glisp.Builtins.Runes.{decode_runes}
use glisp.Builtins.Printing.{Formats, itoa, stringify_function}
use glisp.Builtins.Reading.{read_function}
use glisp.Builtins.Numerals.{parse_int-itoa}
use glisp.Builtins.Utf8.{IsCodePoint, decode_runes-utf8}

-- The lexer in the midst of an atom of a text, before any token.
abbrev in_atom : Runes → Runes → Lexer
in_atom buffer stream = record {
  state = normal;
  tokens = [];
  buffer = buffer;
  stream = stream;
  linenum = 1;
  finished = false;
}

-- The same behind the end of the text.
abbrev at_end : Runes → Lexer
at_end buffer = record (in_atom buffer []) { finished = true }

abbrev is_number_rune : ℕ → Bool
is_number_rune c = is_digit c || c == b'-'

lex-number_rune :
    (c : ℕ) (buffer stream : Runes)
    → is_number_rune c ≡ true
    → lex_next_rune (in_atom buffer stream) c ≡ ok (in_atom (buffer ++ c ∷ []) stream)
unfolding lex_next_rune
lex-number_rune c buffer stream h = ground arith

and_true : (a b : Bool) → (a && b) ≡ true → (a ≡ true) × (b ≡ true)
and_true true b h = (refl, h)
and_true false b h = cc h

read_step :
    (c : ℕ) (cs : Runes) (l : Lexer)
    → read_runes (c ∷ cs) l [] ≡ (lex_next_rune l c >>= λ l'. read_runes cs l' l'.tokens)
unfolding read_runes lex_next_rune
read_step c cs l = refl

read-number_runes :
    (cs buffer stream : Runes)
    → all_runes is_number_rune cs ≡ true
    → read_runes cs (in_atom buffer stream) [] ≡ peek_end (at_end (buffer ++ cs))
unfolding read_runes
read-number_runes [] buffer stream h = ap (λ b. peek_end (at_end b)) (sym (append-nil buffer))
read-number_runes (c ∷ cs) buffer stream h =
    let (first, rest) = and_true (is_number_rune c) (all_runes is_number_rune cs) h in
    read_step c cs (in_atom buffer stream)
    ∙ ap (λ o. o >>= λ l'. read_runes cs l' l'.tokens) (lex-number_rune c buffer stream first)
    ∙ read-number_runes cs (buffer ++ c ∷ []) stream rest
    ∙ ap (λ b. peek_end (at_end b)) (append_assoc buffer (c ∷ []) cs)

peek_end-atom :
    (l : Lexer) (tok : Token)
    → buffered l ≡ true
    → l.tokens ≡ []
    → decode_atom l.buffer ≡ ok tok
    → peek_end l ≡ ok (tok, record l { buffer = []; tokens = tok ∷ [] })
unfolding peek_end
peek_end-atom l tok some_buffer no_tokens h =
    rw (some_buffer, h, no_tokens)
      (ap (λ ts. ok (tok, record l { tokens = ts ++ tok ∷ []; buffer = [] })) no_tokens)

decode_atom-negative :
    (d : ℕ) (ds : Runes)
    → is_digit d ≡ true
    → all_runes is_digit ds ≡ true
    → decode_atom (b'-' ∷ d ∷ ds) ≡ ok (token decimal (b'-' ∷ d ∷ ds))
unfolding decode_atom
decode_atom-negative d ds hd hs = ground arith

either-digits :
    (b : Bool) (s t : Bytes)
    → some_runes is_digit s ≡ true
    → some_runes is_digit t ≡ true
    → some_runes is_digit (if b then s else t) ≡ true
either-digits true s t h h' = h
either-digits false s t h h' = h'

all_digits : (s : Bytes) → some_runes is_digit s ≡ true → all_runes is_digit s ≡ true
all_digits [] h = refl
all_digits (c ∷ cs) h = h

front-digits :
    (n : ℕ) (acc : Bytes)
    → all_runes is_digit acc ≡ true
    → some_runes is_digit ((b'0' + n % 10) ∷ acc) ≡ true
front-digits n acc h = let digit : is_digit (b'0' + n % 10) ≡ true = ground arith in rw (digit) h

itoa_digits-digits :
    (k n : ℕ) (acc : Bytes)
    → all_runes is_digit acc ≡ true
    → some_runes is_digit (itoa_digits (suc k) n acc) ≡ true
unfolding itoa_digits
itoa_digits-digits zero n acc h =
    let front = front-digits n acc h in
    either-digits (n / 10 == 0) ((b'0' + n % 10) ∷ acc) ((b'0' + n % 10) ∷ acc) front front
itoa_digits-digits (suc k) n acc h =
    let front = front-digits n acc h in
    either-digits (n / 10 == 0) ((b'0' + n % 10) ∷ acc)
      (itoa_digits (suc k) (n / 10) ((b'0' + n % 10) ∷ acc)) front
      (itoa_digits-digits k (n / 10) ((b'0' + n % 10) ∷ acc) front)

digits-number : (s : Runes) → all_runes is_digit s ≡ true → all_runes is_number_rune s ≡ true
digits-number [] h = refl
digits-number (c ∷ cs) h =
    let (first, rest) = and_true (is_digit c) (all_runes is_digit cs) h in
    let number : is_number_rune c ≡ true = rw (first) refl in rw (number) (digits-number cs rest)

-- What the texts that `Itoa` gives have in common.
abbrev IsNumberText : Runes → Type 0
IsNumberText [] = ⊥
IsNumberText (c ∷ cs) =
    (all_runes is_number_rune (c ∷ cs) ≡ true)
    × (decode_atom (c ∷ cs) ≡ ok (token decimal (c ∷ cs)))

digits-IsNumberText : (s : Runes) → some_runes is_digit s ≡ true → IsNumberText s
digits-IsNumberText [] h = cc h
digits-IsNumberText (d ∷ ds) h =
    let (first, rest) = and_true (is_digit d) (all_runes is_digit ds) h in
    (digits-number (d ∷ ds) h, decode_atom-digits d ds first rest)

negative-IsNumberText : (s : Runes) → some_runes is_digit s ≡ true → IsNumberText (b'-' ∷ s)
negative-IsNumberText [] h = cc h
negative-IsNumberText (d ∷ ds) h =
    let (first, rest) = and_true (is_digit d) (all_runes is_digit ds) h in
    (digits-number (d ∷ ds) h, decode_atom-negative d ds first rest)

itoa-IsNumberText : (i : ℤ) → IsNumberText (itoa i)
unfolding itoa
itoa-IsNumberText (pos n) = digits-IsNumberText _ (itoa_digits-digits 19 n [] refl)
itoa-IsNumberText (negsuc n) = negative-IsNumberText _ (itoa_digits-digits 19 (suc n) [] refl)

number-IsAscii : (c : ℕ) → is_number_rune c ≡ true → c < 0x80
number-IsAscii c h = ground arith

utf8-number : (s : Runes) → all_runes is_number_rune s ≡ true → utf8 s ≡ s
unfolding utf8 utf8_rune
utf8-number [] h = refl
utf8-number (c ∷ cs) h =
    let (first, rest) = and_true (is_number_rune c) (all_runes is_number_rune cs) h in
    rw (lt→ltb c 0x80 (number-IsAscii c first), utf8-number cs rest) refl

number-All : (s : Runes) → all_runes is_number_rune s ≡ true → All IsCodePoint s
number-All [] h = tt
number-All (c ∷ cs) h =
    let (first, rest) = and_true (is_number_rune c) (all_runes is_number_rune cs) h in
    let ascii : c < 0x80 = number-IsAscii c first in (inl (omega arith), number-All cs rest)

decode_runes-number : (s : Runes) → all_runes is_number_rune s ≡ true → decode_runes s ≡ s
decode_runes-number s h =
    ap decode_runes (sym (utf8-number s h)) ∙ decode_runes-utf8 s (number-All s h)

number-buffered : (c : ℕ) (cs : Runes) → buffered (at_end (c ∷ cs)) ≡ true
number-buffered c cs = ground arith

pub next-peek :
    (l : Lexer) (tok : Token) (l' : Lexer)
    → peek_next_token l ≡ ok (tok, l')
    → is_end tok.typ ≡ false
    → get_next_token l ≡ ok (tok, record l' { tokens = drop 1 l'.tokens })
unfolding get_next_token
next-peek l tok l' h live = rw (h, live) refl

-- The first token of a number's text.
next-number :
    (c : ℕ) (cs : Runes)
    → IsNumberText (c ∷ cs)
    → get_next_token (new_lexer_from_stream (c ∷ cs)) ≡ ok (token decimal (c ∷ cs), at_end [])
unfolding peek_next_token new_lexer_from_stream
next-number c cs (runes, atom) =
    let first =
      read-number_runes (c ∷ cs) [] (c ∷ cs) runes
      ∙ peek_end-atom (at_end (c ∷ cs)) (token decimal (c ∷ cs)) (number-buffered c cs) refl atom in
    next-peek (new_lexer_from_stream (c ∷ cs)) (token decimal (c ∷ cs))
      (record (at_end []) { tokens = token decimal (c ∷ cs) ∷ [] }) first refl

read-number :
    (parse_float : Runes → Option ℕ) (n : ℕ) (s : Bytes) (symbols : Symbols) (i : ℤ)
    → IsNumberText s
    → parse_int 10 s ≡ ok i
    → read_function parse_float (suc n) (str s ∷ []) symbols ≡ ok (int i, symbols)
unfolding read_function parse_expression
read-number parse_float n [] symbols i text e = absurd text
read-number parse_float n (c ∷ cs) symbols i text e =
    rw (decode_runes-number (c ∷ cs) text.0, next-number c cs text, e) refl

-- What `str` prints for an integer in the range of `int`, negative ones included, `read` reads back
-- as that integer, and no symbol is made. One step of fuel is enough for each of the two.
pub read_function-int :
    (formats : Formats) (hashes : List Hash) (parse_float : Runes → Option ℕ) (m n : ℕ) (i : ℤ)
    (symbols : Symbols)
    → Fits 64 i
    → (stringify_function formats hashes (suc m) (int i ∷ []) >>= λ s.
        read_function parse_float (suc n) (s ∷ []) symbols)
      ≡ ok (int i, symbols)
unfolding stringify_function
read_function-int formats hashes parse_float m n i symbols fits =
    read-number parse_float n (itoa i) symbols i (itoa-IsNumberText i) (parse_int-itoa i fits)
