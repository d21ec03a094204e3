-- ===== src/Parser/Induction.antt =====
-- The rounds of arrays and hashes, and the induction over all the functions of the parser.
use glisp.Prelude.{
  ℕ, zero, suc, ◌+◌, ◌*◌, ◌≤◌, true, false, List, [], ◌∷◌, ◌++◌, Option, ok, ◌>>=◌, ◌≡◌, refl,
  arith, Bool-cases, inl, inr,
}
use glisp.Sexp.{Sexp}
use glisp.Lexer.{Runes, Token, TokenType, r_square, r_curly, end_t, mark, is_end, peek_next_token}
use glisp.Lexer.Progress.{Gives, Gives-bind}
use glisp.Lexer.Potential.{Peeked}
use glisp.Parser.Defs.{
  Parser, Parse, peek, next, array_from, hash_from, parse_expression, parse_array, parse_hash,
}
use glisp.Parser.Fuel.{room, Within, next-Gives, peek-Gives, Gives-weaken}
use glisp.Parser.Rounds.{after_peek, expression, Enough, expression-Gives, list_from-Gives}

module _ (parse_float : Runes → Option ℕ) (n : ℕ) where
  -- The rest of an array or a hash: an expression, and the next round.
  items_rest :
      Enough parse_float n
      → (items : List Sexp → Parser → Parse Sexp)
      → ((done : List Sexp) (p : Parser)
          → 2 * room p + 2 ≤ n
          → Gives (Within (room p)) (items done p))
      → (w : ℕ) (done : List Sexp) (p : Parser) (tok : Token) → 1 ≤ w
      → 2 * w + 2 ≤ suc n
      → Peeked w (tok, p.lexer)
      → is_end tok.typ ≡ false
      → Gives
          (Within w)
          ((expression parse_float n) p >>= λ (expr, p₁). items (done ++ expr ∷ []) p₁)
  items_rest enough items again w done p tok some_w le peeked no_end =
      let room_here : room p ≤ w = peeked.0 in
      Gives-bind (λ (e, p₁). room p₁ + 1 ≤ w) _ ((expression parse_float n) p) _
        (Gives-weaken ((expression parse_float n) p)
          (λ (e, p₁) h. after_peek w tok p.lexer (room p₁) some_w peeked no_end h)
          (enough.0 p (omega (arith, room_here, le))))
        λ (expr, p₁) h₁.
          Gives-weaken (items (done ++ expr ∷ []) p₁) (λ (e, p₂) h. omega (arith, h, h₁))
            (again (done ++ expr ∷ []) p₁ (omega (arith, h₁, le)))

  closing : (w : ℕ) (p : Parser) → room p ≤ w → Gives (λ (tok, p'). room p' ≤ w) (next p)
  closing w p less =
      Gives-weaken (next p) (λ (tok, p') (went, took). omega (arith, went, less)) (next-Gives p)

  array_from-Gives :
      Enough parse_float n
      → (w : ℕ) (done : List Sexp) (t : TokenType) (s : Runes) (p : Parser) → 1 ≤ w
      → 2 * w + 2 ≤ suc n
      → Peeked w (record { typ = t; text = s }, p.lexer)
      → Gives (Within w) (
          array_from parse_float
            (expression parse_float n)
            (parse_array parse_float n)
            done
            (record { typ = t; text = s })
            p)
  unfolding array_from
  array_from-Gives enough w done end_t s p some_w le peeked = tt
  array_from-Gives enough w done r_square s p some_w le (less, _) =
      Gives-bind (Within w) _ (next p) _ (closing w p less) λ (_, p₁) h. h
  array_from-Gives enough w done t s p some_w le peeked =
      items_rest enough (parse_array parse_float n) enough.2 w done p (record { typ = t; text = s })
        some_w le peeked refl

  hash_from-Gives :
      Enough parse_float n
      → (w : ℕ) (done : List Sexp) (t : TokenType) (s : Runes) (p : Parser) → 1 ≤ w
      → 2 * w + 2 ≤ suc n
      → Peeked w (record { typ = t; text = s }, p.lexer)
      → Gives (Within w) (
          hash_from parse_float
            (expression parse_float n)
            (parse_hash parse_float n)
            done
            (record { typ = t; text = s })
            p)
  unfolding hash_from
  hash_from-Gives enough w done end_t s p some_w le peeked = tt
  hash_from-Gives enough w done r_curly s p some_w le (less, _) =
      Gives-bind (Within w) _ (next p) _ (closing w p less) λ (_, p₁) h. h
  hash_from-Gives enough w done t s p some_w le peeked =
      items_rest enough (parse_hash parse_float n) enough.3 w done p (record { typ = t; text = s })
        some_w le peeked refl

  -- A look at finished input sees the end.
  peek-finished : (p : Parser) → p.lexer.finished ≡ true → peek p ≡ ok (mark end_t, p)
  unfolding peek_next_token
  peek-finished p fin = rw fin refl

  -- A look, and what goes on from it; at the end of the input nothing goes on.
  looked :
      (p : Parser) (from : Token → Parser → Parse Sexp)
      → Gives (Within (room p)) (from (mark end_t) p)
      → ((tok : Token) (p' : Parser)
          → 1 ≤ room p
          → Peeked (room p) (tok, p'.lexer)
          → Gives (Within (room p)) (from tok p'))
      → Gives (Within (room p)) (peek p >>= λ (tok, p'). from tok p')
  looked p from at_end goes_on = elim (Bool-cases p.lexer.finished) [
    | inl fin ↦ rw (peek-finished p fin) at_end
    | inr more ↦
        let some_room : 1 ≤ room p = rw more (omega arith) in
        Gives-bind (λ (tok, p'). Peeked (room p) (tok, p'.lexer)) _ (peek p) _ (peek-Gives p)
          λ (tok, p') h. goes_on tok p' some_room h
  ]

module _ (parse_float : Runes → Option ℕ) where
  pub enough : (n : ℕ) → Enough parse_float n
  unfolding parse_expression
  enough zero = (
    λ p le. absurd (omega (arith, le)),
    λ p le. absurd (omega (arith, le)),
    λ done p le. absurd (omega (arith, le)),
    λ done p le. absurd (omega (arith, le)),
  )
  enough (suc n) =
      let ih = enough n in
      (
        expression-Gives parse_float n ih,
        λ p le. looked parse_float n p _ tt λ tok p' some h.
            list_from-Gives parse_float n ih (room p) tok.typ tok.text p' some le h,
        λ done p le. looked parse_float n p _ tt λ tok p' some h.
            array_from-Gives parse_float n ih (room p) done tok.typ tok.text p' some le h,
        λ done p le. looked parse_float n p _ tt λ tok p' some h.
            hash_from-Gives parse_float n ih (room p) done tok.typ tok.text p' some le h,
      )
