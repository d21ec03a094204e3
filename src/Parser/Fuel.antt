-- ===== src/Parser/Fuel.antt =====
-- How much is left to read, after a token and after an atom.
use glisp.Prelude.{
  ℕ, ◌≤◌, ◌==◌, ltb, leb, Bytes, [], ◌∷◌, Option, some, none, Outcome, ok, err, panic, out_of_fuel,
  arith, ℤ, pos, sub_ℕ, ◌^◌, bad_number,
}
use glisp.Sexp.{Sexp}
use glisp.Lexer.{
  Runes, utf8, TokenType, symbol_t, bool_t, decimal, hex, oct, binary, float_t, char_t, string_t,
  nil_t, end_t, peek_next_token, get_next_token,
}
use glisp.Lexer.Progress.{Gives, Gives-bind, Gives-if}
use glisp.Lexer.Potential.{
  potential, busy, Peeked, Taken, peek_next_token-Gives, get_next_token-Gives,
}
use glisp.Parser.Numerals.{parse_int, digits_value}
use glisp.Parser.Defs.{Parser, peek, next, first_byte, number, parse_atom}

-- What can still be read.
abbrev pub room : Parser → ℕ
room p = potential p.lexer

abbrev pub Within {ℓ} : {A : Type ℓ} → ℕ → A × Parser → Type 0
Within w (a, p) = room p ≤ w

pub next-Gives :
    (p : Parser) → Gives (λ (tok, p'). Taken (room p) (busy p.lexer) (tok, p'.lexer)) (next p)
next-Gives p =
    Gives-bind (Taken (room p) (busy p.lexer)) _ (get_next_token p.lexer) _
      (get_next_token-Gives p.lexer) λ (tok, l) h. h

pub peek-Gives : (p : Parser) → Gives (λ (tok, p'). Peeked (room p) (tok, p'.lexer)) (peek p)
peek-Gives p =
    Gives-bind (Peeked (room p)) _ (peek_next_token p.lexer) _ (peek_next_token-Gives p.lexer)
      λ (tok, l) h. h

abbrev Any : ℤ → Type 0
Any i = Unit

parse_int-Gives : (base : ℕ) (s : Runes) → Gives Any (parse_int base s)
unfolding parse_int
parse_int-Gives base [] = tt
parse_int-Gives base (c ∷ cs) =
    let minus = digits_value base 0 cs in
    let plus = digits_value base 0 (c ∷ cs) in
    Gives-if Any (c == b'-') _ _
      (Gives-if Any (leb minus (2 ^ 63)) (ok (sub_ℕ 0 minus)) (err bad_number) tt tt)
      (Gives-if Any (ltb plus (2 ^ 63)) (ok (pos plus)) (err bad_number) tt tt)

number-Gives : (base : ℕ) (s : Runes) (p : Parser) → Gives (Within (room p)) (number base s p)
number-Gives base s p =
    Gives-bind Any _ (parse_int base s) _ (parse_int-Gives base s) λ i _. omega arith

first_byte-Gives : (s : Bytes) (p : Parser) → Gives (Within (room p)) (first_byte s p)
unfolding first_byte
first_byte-Gives [] p = tt
first_byte-Gives (b ∷ s) p = omega arith

module _ (parse_float : Runes → Option ℕ) where
  float-Gives :
      (o : Option ℕ) (p : Parser)
      → Gives (Within (room p)) (elim o [ some b ↦ ok (Sexp.float b, p) | none ↦ err bad_number ])
  float-Gives (some b) p = omega arith
  float-Gives none p = tt

  pub atom-Gives :
      (t : TokenType) (s : Runes) (p : Parser)
      → Gives (Within (room p)) (parse_atom parse_float t s p)
  unfolding parse_atom
  atom-Gives nil_t s p = omega arith
  atom-Gives symbol_t s p = omega arith
  atom-Gives bool_t s p = omega arith
  atom-Gives decimal s p = number-Gives 10 s p
  atom-Gives hex s p = number-Gives 16 s p
  atom-Gives oct s p = number-Gives 8 s p
  atom-Gives binary s p = number-Gives 2 s p
  atom-Gives char_t s p = first_byte-Gives (utf8 s) p
  atom-Gives string_t s p = omega arith
  atom-Gives float_t s p = float-Gives (parse_float s) p
  atom-Gives end_t s p = omega arith
  atom-Gives _ s p = tt

pub Gives-weaken :
    {A : Type 0} {P Q : A → Type 0} (m : Outcome A) → ((a : A) → P a → Q a) → Gives P m → Gives Q m
Gives-weaken (ok a) f h = f a h
Gives-weaken (err e) f h = tt
Gives-weaken panic f h = tt
Gives-weaken out_of_fuel f h = h
