-- ===== src/Lexer/Atoms.antt =====
-- Atoms: what is taken for a float, and what happens to an atom at the end of the input.
use glisp.Prelude.{
  ℕ, Bool, true, false, ◌&&◌, ◌||◌, [], ◌∷◌, ◌++◌, ok, err, panic, ◌≡◌, refl, arith, Error,
}
use glisp.Lexer.Tokens.{
  Runes, token, decimal, is_digit, all_runes, is_float_text, scientific, ends_scientific,
  decode_atom,
}
use glisp.Lexer.Machine.{Lexer, buffered, peek_next_token}

or_true : (b : Bool) → (b || true) ≡ true
or_true true = refl
or_true false = refl

ends_scientific-suffix :
    (s : Runes) (d e : ℕ)
    → is_digit d ≡ true
    → is_digit e ≡ true
    → ends_scientific (s ++ d ∷ b'e' ∷ e ∷ []) ≡ true
unfolding ends_scientific
ends_scientific-suffix [] d e hd he = ground arith
ends_scientific-suffix (c ∷ s) d e hd he =
    rw (ends_scientific-suffix s d e hd he)
      (or_true (is_digit c && scientific (s ++ d ∷ b'e' ∷ e ∷ [])))

-- Whatever stands before them, a digit, an `e` and a digit make the text a float.
pub float-suffix :
    (s : Runes) (d e : ℕ)
    → is_digit d ≡ true
    → is_digit e ≡ true
    → is_float_text (s ++ d ∷ b'e' ∷ e ∷ []) ≡ true
unfolding is_float_text
float-suffix s d e hd he = rw (ends_scientific-suffix s d e hd he) (or_true _)

-- A text of digits is a decimal number.
pub decode_atom-digits :
    (d : ℕ) (ds : Runes)
    → is_digit d ≡ true
    → all_runes is_digit ds ≡ true
    → decode_atom (d ∷ ds) ≡ ok (token decimal (d ∷ ds))
unfolding decode_atom
decode_atom-digits d ds hd hs = ground arith

-- At the end of the input, with no token waiting, an atom that is no token makes the lexer panic.
pub peek-bad_atom :
    (l : Lexer) {e : Error}
    → l.finished ≡ false
    → l.stream ≡ []
    → l.tokens ≡ []
    → buffered l ≡ true
    → decode_atom l.buffer ≡ err e
    → peek_next_token l ≡ panic
unfolding peek_next_token
peek-bad_atom l live no_stream no_tokens some_buffer bad =
    rw (live, no_stream, no_tokens, some_buffer, bad) refl
