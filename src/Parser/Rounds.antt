-- ===== src/Parser/Rounds.antt =====
-- How much fuel the functions of the parser need, one round after the other.
use glisp.Prelude.{
  ℕ, suc, ◌+◌, ◌*◌, ◌≤◌, false, Bytes, List, [], Option, ◌>>=◌, ◌≡◌, refl, arith, inl, inr,
}
use glisp.Sexp.{Sexp, pair}
use glisp.Lexer.{
  Runes, Token, TokenType, l_paren, r_paren, l_square, l_curly, dot, quote, backtick, tilde,
  tilde_at, end_t, Lexer, is_end,
}
use glisp.Lexer.Progress.{Gives, Gives-bind}
use glisp.Lexer.Potential.{bit, potential, busy, Peeked, Taken}
use glisp.Parser.Defs.{
  Parser, Parse, peek, next, wrapped, parse_token, list_from, list_tail, closed_by,
  parse_expression, parse_list, parse_array, parse_hash,
}
use glisp.Parser.Fuel.{room, Within, next-Gives, peek-Gives, atom-Gives, Gives-weaken}

-- Behind a look at a token that is not the end, an expression takes something.
pub after_peek :
    (w : ℕ) (tok : Token) (l : Lexer) (m : ℕ)
    → 1 ≤ w
    → Peeked w (tok, l)
    → is_end tok.typ ≡ false
    → m + bit (busy l) ≤ potential l
    → m + 1 ≤ w
after_peek w tok l m some_w (less, inl fin) no_end h = omega (arith, some_w, rw fin at h)
after_peek w tok l m some_w (less, inr b) no_end h = omega (arith, less, rw (b, no_end) at h)

closed :
    (t : TokenType) (w : ℕ) (expr : Sexp) (p : Parser)
    → room p ≤ w
    → Gives (Within w) (closed_by t expr p)
closed r_paren w expr p h = h
closed _ w expr p h = tt

module _ (parse_float : Runes → Option ℕ) (n : ℕ) where
  abbrev pub expression : Parser → Parse Sexp
  expression = parse_expression parse_float n

  abbrev pub list : Parser → Parse Sexp
  list = parse_list parse_float n

  -- What the induction gives at `n`.
  abbrev pub Enough : Type 0
  Enough =
      ((p : Parser)
        → 2 * room p + 1 ≤ n
        → Gives (λ (e, p'). room p' + bit (busy p.lexer) ≤ room p) (expression p))
      × ((p : Parser) → 2 * room p + 2 ≤ n → Gives (Within (room p)) (list p))
      × ((done : List Sexp) (p : Parser)
          → 2 * room p + 2 ≤ n
          → Gives (Within (room p)) (parse_array parse_float n done p))
      × ((done : List Sexp) (p : Parser)
          → 2 * room p + 2 ≤ n
          → Gives (Within (room p)) (parse_hash parse_float n done p))

  quoted :
      Enough
      → (s : Bytes) (p : Parser) → 2 * room p + 1 ≤ n
      → Gives (Within (room p)) (expression p >>= wrapped s)
  unfolding wrapped
  quoted enough s p le =
      Gives-bind (Within (room p)) _ (expression p) _
        (Gives-weaken (expression p) (λ (e, p') h. omega (arith, h)) (enough.0 p le)) λ (e, p') h. h

  pub token-Gives :
      Enough
      → (t : TokenType) (s : Runes) (p : Parser) → (is_end t ≡ false → 2 * room p + 2 ≤ n)
      → Gives (Within (room p)) (
          parse_token parse_float expression list
            (parse_array parse_float n)
            (parse_hash parse_float n)
            (record { typ = t; text = s })
            p)
  unfolding parse_token
  token-Gives enough l_paren s p le = enough.1 p (le refl)
  token-Gives enough l_square s p le = enough.2 [] p (le refl)
  token-Gives enough l_curly s p le = enough.3 [] p (le refl)
  token-Gives enough quote s p le = quoted enough _ p (omega (arith, le refl))
  token-Gives enough backtick s p le = quoted enough _ p (omega (arith, le refl))
  token-Gives enough tilde s p le = quoted enough _ p (omega (arith, le refl))
  token-Gives enough tilde_at s p le = quoted enough _ p (omega (arith, le refl))
  token-Gives enough t s p le = atom-Gives parse_float t s p

  -- An expression: a token is taken, and what it begins is read.
  pub expression-Gives :
      Enough
      → (p : Parser) → 2 * room p + 1 ≤ suc n
      → Gives
          (λ (e, p'). room p' + bit (busy p.lexer) ≤ room p)
          (parse_expression parse_float (suc n) p)
  unfolding parse_expression
  expression-Gives enough p le =
      Gives-bind (λ (tok, p'). Taken (room p) (busy p.lexer) (tok, p'.lexer)) _ (next p) _
        (next-Gives p)
        λ (tok, p') (went, took).
          Gives-weaken
            (parse_token parse_float expression list (parse_array parse_float n)
              (parse_hash parse_float n) tok p')
            (λ (e, p'') h. omega (arith, h, went))
            (token-Gives enough tok.typ tok.text p' λ no_end. omega (arith, le, rw no_end at took))

  -- The rest of a list behind its first expression.
  tail-Gives :
      Enough
      → (t : TokenType) (s : Runes) (expr : Sexp) (p : Parser) → 2 * room p + 2 ≤ n
      → Gives
          (Within (room p))
          (list_tail parse_float expression list expr (record { typ = t; text = s }) p)
  unfolding list_tail
  tail-Gives enough dot s expr p le =
      Gives-bind (Within (room p)) _ (next p) _
        (Gives-weaken (next p) (λ (tok, p') (went, took). omega (arith, went)) (next-Gives p))
        λ (_, p₁) h₁.
          Gives-bind (Within (room p)) _ (expression p₁) _
            (Gives-weaken (expression p₁) (λ (e, p') h. omega (arith, h, h₁))
              (enough.0 p₁ (omega (arith, h₁, le))))
            λ (tail, p₂) h₂.
              Gives-bind (Within (room p)) _ (next p₂) _
                (Gives-weaken (next p₂) (λ (tok, p') (went, took). omega (arith, went, h₂))
                  (next-Gives p₂))
                λ (close, p₃) h₃. closed close.typ (room p) (pair expr tail) p₃ h₃
  tail-Gives enough t s expr p le =
      Gives-bind (Within (room p)) _ (list p) _ (enough.1 p le) λ (tail, p₁) h. h

  -- The rest of a list: an expression, a look, and the tail.
  list_rest :
      Enough
      → (w : ℕ) (p : Parser) (tok : Token) → 1 ≤ w
      → 2 * w + 2 ≤ suc n
      → Peeked w (tok, p.lexer)
      → is_end tok.typ ≡ false
      → Gives (Within w) (
          expression p >>= λ (expr, p₁).
          peek p₁ >>= λ (tok₂, p₂). list_tail parse_float expression list expr tok₂ p₂)
  list_rest enough w p tok some_w le peeked no_end =
      let room_here : room p ≤ w = peeked.0 in
      Gives-bind (λ (e, p₁). room p₁ + 1 ≤ w) _ (expression p) _
        (Gives-weaken (expression p)
          (λ (e, p₁) h. after_peek w tok p.lexer (room p₁) some_w peeked no_end h)
          (enough.0 p (omega (arith, room_here, le))))
        λ (expr, p₁) h₁.
          Gives-bind (λ (tok₂, p₂). room p₂ + 1 ≤ w) _ (peek p₁) _
            (Gives-weaken (peek p₁) (λ (tok₂, p₂) (less, _). omega (arith, less, h₁))
              (peek-Gives p₁))
            λ (tok₂, p₂) h₂.
              Gives-weaken (list_tail parse_float expression list expr tok₂ p₂)
                (λ (e, p₃) h. omega (arith, h, h₂))
                (tail-Gives enough tok₂.typ tok₂.text expr p₂ (omega (arith, h₂, le)))

  pub list_from-Gives :
      Enough
      → (w : ℕ) (t : TokenType) (s : Runes) (p : Parser) → 1 ≤ w
      → 2 * w + 2 ≤ suc n
      → Peeked w (record { typ = t; text = s }, p.lexer)
      → Gives (Within w) (list_from parse_float expression list (record { typ = t; text = s }) p)
  unfolding list_from
  list_from-Gives enough w end_t s p some_w le peeked = tt
  list_from-Gives enough w r_paren s p some_w le (less, _) =
      Gives-bind (Within w) _ (next p) _
        (Gives-weaken (next p) (λ (tok, p') (went, took). omega (arith, went, less)) (next-Gives p))
        λ (_, p₁) h. h
  list_from-Gives enough w t s p some_w le peeked =
      list_rest enough w p (record { typ = t; text = s }) some_w le peeked refl
