-- ===== src/Parser/Termination.antt =====
-- The fuel for a whole text.
use glisp.Prelude.{
  ℕ, zero, suc, ◌+◌, ◌*◌, ◌≤◌, Bool, true, false, not, List, [], ◌∷◌, length, Option, Outcome, ok,
  err, panic, out_of_fuel, ◌>>=◌, ◌≡◌, ◌≢◌, arith,
}
use glisp.Sexp.{Sexp, is_sentinel, end}
use glisp.Lexer.{Runes, TokenType, end_t, is_end, new_lexer_from_stream}
use glisp.Lexer.Progress.{Gives, Gives-bind}
use glisp.Lexer.Potential.{bit, busy, Taken}
use glisp.Parser.Numerals.{Symbols}
use glisp.Parser.Defs.{
  Parser, next, parse_atom, parse_token, parse_expression, parse_list, parse_array, parse_hash,
  parse_tokens,
}
use glisp.Parser.Fuel.{room, Within, next-Gives, Gives-weaken}
use glisp.Parser.Rounds.{token-Gives}
use glisp.Parser.Induction.{enough}

bit-le-one : (b : Bool) → bit b ≤ 1
bit-le-one true = omega arith
bit-le-one false = omega arith

module _ (parse_float : Runes → Option ℕ) where
  -- What an expression leaves to read is less, unless it is the end.
  abbrev Shrinks : ℕ → Sexp × Parser → Type 0
  Shrinks w (e, p) = room p + bit (not (is_sentinel end e)) ≤ w

  token-Shrinks :
      (n w : ℕ) (t : TokenType) (s : Runes) (p : Parser)
      → room p + bit (not (is_end t)) ≤ w
      → (is_end t ≡ false → 2 * room p + 2 ≤ n)
      → Gives (Shrinks w) (
          parse_token parse_float
            (parse_expression parse_float n)
            (parse_list parse_float n)
            (parse_array parse_float n)
            (parse_hash parse_float n)
            (record { typ = t; text = s })
            p)
  unfolding parse_token parse_atom
  token-Shrinks n w end_t s p took le = omega (arith, took)
  token-Shrinks n w t s p took le =
      Gives-weaken {P = Within (room p)} {Q = Shrinks w}
        (parse_token parse_float (parse_expression parse_float n) (parse_list parse_float n)
          (parse_array parse_float n) (parse_hash parse_float n) (record { typ = t; text = s }) p)
        (λ (e, p') h. omega (arith, h, took, bit-le-one (not (is_sentinel end e))))
        (token-Gives parse_float n (enough parse_float n) t s p le)

  expression-Shrinks :
      (n : ℕ) (p : Parser)
      → 2 * room p + 1 ≤ suc n
      → Gives (Shrinks (room p)) (parse_expression parse_float (suc n) p)
  unfolding parse_expression
  expression-Shrinks n p le =
      Gives-bind (λ (tok, p'). Taken (room p) (busy p.lexer) (tok, p'.lexer)) _ (next p) _
        (next-Gives p)
        λ (tok, p') (went, took).
          token-Shrinks n (room p) tok.typ tok.text p' took
            λ no_end. omega (arith, le, rw no_end at took)

  abbrev Ended : List Sexp × Parser → Type 0
  Ended r = Unit

  tokens-Ended :
      (n : ℕ) (p : Parser) → 2 * room p + 2 ≤ n → Gives Ended (parse_tokens parse_float n p)
  unfolding parse_tokens
  tokens-Ended zero p le = absurd (omega (arith, le))
  tokens-Ended (suc n) p le =
      Gives-bind (Shrinks (room p)) _ (parse_expression parse_float (suc n) p) _
        (expression-Shrinks n p (omega (arith, le)))
        λ (e, p') h.
          rest (is_sentinel end e) e p' h λ more. tokens-Ended n p' (omega (arith, le, more))
    where
      rest :
          (b : Bool) (e : Sexp) (p' : Parser)
          → room p' + bit (not b) ≤ room p
          → (room p' + 1 ≤ room p → Gives Ended (parse_tokens parse_float n p'))
          → Gives Ended (elim b [
            | true ↦ ok ([], p')
            | false ↦ parse_tokens parse_float n p' >>= λ (exprs, p''). ok (e ∷ exprs, p'')
          ])
      rest true e p' h again = tt
      rest false e p' h again =
          Gives-bind Ended _ (parse_tokens parse_float n p') _ (again h) λ _ _. tt

  fuel_left : (m : Outcome (List Sexp × Parser)) → Gives Ended m → m ≢ out_of_fuel
  fuel_left (ok r) h e = cc e
  fuel_left (err x) h e = cc e
  fuel_left panic h e = cc e
  fuel_left out_of_fuel h e = h

  -- `ParseTokens` comes to an end on every text: with fuel of four for each character and four
  -- more, the parse does not run out of it.
  pub parse_tokens-ends :
      (s : Runes) (symbols : Symbols) (fuel : ℕ)
      → 4 * length s + 4 ≤ fuel
      → parse_tokens parse_float fuel
          (record { lexer = new_lexer_from_stream s; symbols = symbols })
        ≢ out_of_fuel
  unfolding new_lexer_from_stream
  parse_tokens-ends s symbols fuel le = fuel_left _ (
      tokens-Ended fuel (record { lexer = new_lexer_from_stream s; symbols = symbols })
        (omega (arith, le)))
