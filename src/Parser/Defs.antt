-- ===== src/Parser/Defs.antt =====
-- parser.go. The functions call one another through the lexer, so that the model recurs on fuel. An error ends the parse: the lexer behind it is not kept.
use glisp.Prelude.{
  ℕ, zero, suc, pos, true, false, Bytes, bytes_eq, codes, List, [], ◌∷◌, ◌++◌, Outcome, Option,
  some, none, bad_number, ok, err, panic, out_of_fuel, ◌>>=◌, unexpected_end, extra_value,
  invalid_syntax,
}
use glisp.Sexp.{
  Sexp, sentinel, end, pair, array, int, bool, float, char, str, symbol, sexp_null, is_sentinel,
  make_list, of_list,
}
use glisp.Lexer.{
  Runes, utf8, Token, TokenType, l_paren, r_paren, l_square, r_square, l_curly, r_curly, dot, quote,
  backtick, tilde, tilde_at, symbol_t, bool_t, decimal, hex, oct, binary, float_t, char_t, string_t,
  nil_t, end_t, Lexer, peek_next_token, get_next_token,
}
use glisp.Parser.Numerals.{parse_int, Symbols, make_symbol}

pub record Parser : Type 0 where
  pub lexer : Lexer
  pub symbols : Symbols

abbrev pub Parse : Type 0 → Type 0
Parse A = Outcome (A × Parser)

abbrev pub peek : Parser → Parse Token
peek p = peek_next_token p.lexer >>= λ (tok, l). ok (tok, record p { lexer = l })

-- A token that was seen can be taken without an error, so that nothing is lost where the source
-- drops the error of `GetNextToken`.
abbrev pub next : Parser → Parse Token
next p = get_next_token p.lexer >>= λ (tok, l). ok (tok, record p { lexer = l })

unfoldable pub symbol_named : Parser → Bytes → Sexp × Parser
unfolding make_symbol
symbol_named p s = let (sym, t) = make_symbol p.symbols s in (symbol sym, record p { symbols = t })

-- `(quote expr)` and its kin; the symbol is made after the expression is read.
unfoldable pub wrapped : Bytes → Sexp × Parser → Parse Sexp
unfolding symbol_named make_list
wrapped s (expr, p) = let (sym, p') = symbol_named p s in ok (make_list (sym ∷ expr ∷ []), p')

abbrev pub number : ℕ → Runes → Parser → Parse Sexp
number base s p = parse_int base s >>= λ i. ok (int i, p)

-- `tok.str[0]`: the first byte of the text.
unfoldable pub first_byte : Bytes → Parser → Parse Sexp
first_byte [] p = panic
first_byte (b ∷ bs) p = ok (char (pos b), p)

-- What must follow the value behind a dot.
abbrev pub closed_by : TokenType → Sexp → Parser → Parse Sexp
closed_by r_paren expr p = ok (expr, p)
closed_by _ expr p = err extra_value

-- `strconv.ParseFloat` is a parameter: the bits of the float, if the text is one in range.
module _ (parse_float : Runes → Option ℕ) where
  -- The tokens that are an expression by themselves.
  unfoldable pub parse_atom : TokenType → Runes → Parser → Parse Sexp
  unfolding symbol_named first_byte utf8 parse_int
  parse_atom nil_t s p = ok (sexp_null, p)
  parse_atom symbol_t s p = ok (symbol_named p (utf8 s))
  parse_atom bool_t s p = ok (bool (bytes_eq s (codes "true")), p)
  parse_atom decimal s p = number 10 s p
  parse_atom hex s p = number 16 s p
  parse_atom oct s p = number 8 s p
  parse_atom binary s p = number 2 s p
  parse_atom char_t s p = first_byte (utf8 s) p
  parse_atom string_t s p = ok (str (utf8 s), p)
  parse_atom float_t s p = elim (parse_float s) [ some b ↦ ok (float b, p) | none ↦ err bad_number ]
  parse_atom end_t s p = ok (sentinel end, p)
  parse_atom _ s p = err invalid_syntax

  -- One function for each of the four, after the token that chooses its branch was read; the
  -- argument `expression` and `rest` are the calls back into the parser on less fuel.
  unfoldable pub parse_token :
      (Parser → Parse Sexp)
      → (Parser → Parse Sexp)
      → (List Sexp → Parser → Parse Sexp)
      → (List Sexp → Parser → Parse Sexp)
      → Token
      → Parser
      → Parse Sexp
  unfolding parse_atom wrapped
  parse_token expression list arr hash tok p = elim tok.typ [
    | l_paren ↦ list p
    | l_square ↦ arr [] p
    | l_curly ↦ hash [] p
    | quote ↦ expression p >>= wrapped (codes "quote")
    | backtick ↦ expression p >>= wrapped (codes "syntax-quote")
    | tilde ↦ expression p >>= wrapped (codes "unquote")
    | tilde_at ↦ expression p >>= wrapped (codes "unquote-splicing")
    | other ↦ parse_atom other tok.text p
  ]

  -- `ParseList` behind the first expression and a look at what follows.
  unfoldable pub list_tail :
      (Parser → Parse Sexp) → (Parser → Parse Sexp) → Sexp → Token → Parser → Parse Sexp
  list_tail expression list expr tok p = elim tok.typ [
    | dot ↦ next p >>= λ (_, p₁). expression p₁ >>= λ (tail, p₂).
        next p₂ >>= λ (close, p₃). closed_by close.typ (pair expr tail) p₃
    | _ ↦ list p >>= λ (tail, p₁). ok (pair expr tail, p₁)
  ]

  -- `ParseList` behind the first look at the next token.
  unfoldable pub list_from :
      (Parser → Parse Sexp) → (Parser → Parse Sexp) → Token → Parser → Parse Sexp
  unfolding list_tail
  list_from expression list tok p = elim tok.typ [
    | end_t ↦ err unexpected_end
    | r_paren ↦ next p >>= λ (_, p'). ok (sexp_null, p')
    | _ ↦ expression p >>= λ (expr, p₁).
        peek p₁ >>= λ (tok₂, p₂). list_tail expression list expr tok₂ p₂
  ]

  -- One round of the loop of `ParseArray`.
  unfoldable pub array_from :
      (Parser → Parse Sexp)
      → (List Sexp → Parser → Parse Sexp)
      → List Sexp
      → Token
      → Parser
      → Parse Sexp
  array_from expression arr done tok p = elim tok.typ [
    | end_t ↦ err unexpected_end
    | r_square ↦ next p >>= λ (_, p'). ok (array (of_list done), p')
    | _ ↦ expression p >>= λ (expr, p'). arr (done ++ expr ∷ []) p'
  ]

  -- The list that `ParseHash` returns: a call of `hash`.
  unfoldable pub hash_call : List Sexp → Parser → Sexp × Parser
  unfolding symbol_named make_list
  hash_call done p =
      let (sym, p') = symbol_named p (codes "hash") in (pair sym (make_list done), p')

  unfoldable pub hash_from :
      (Parser → Parse Sexp)
      → (List Sexp → Parser → Parse Sexp)
      → List Sexp
      → Token
      → Parser
      → Parse Sexp
  unfolding hash_call
  hash_from expression hash done tok p = elim tok.typ [
    | end_t ↦ err unexpected_end
    | r_curly ↦ next p >>= λ (_, p'). ok (hash_call done p')
    | _ ↦ expression p >>= λ (expr, p'). hash (done ++ expr ∷ []) p'
  ]

  unfoldable mutual
    unfolding parse_token list_from array_from hash_from

    pub parse_expression : ℕ → Parser → Parse Sexp
    parse_expression zero p = out_of_fuel
    parse_expression (suc n) p = next p >>= λ (tok, p').
        parse_token (parse_expression n) (parse_list n) (parse_array n) (parse_hash n) tok p'

    pub parse_list : ℕ → Parser → Parse Sexp
    parse_list zero p = out_of_fuel
    parse_list (suc n) p =
        peek p >>= λ (tok, p'). list_from (parse_expression n) (parse_list n) tok p'

    pub parse_array : ℕ → List Sexp → Parser → Parse Sexp
    parse_array zero done p = out_of_fuel
    parse_array (suc n) done p =
        peek p >>= λ (tok, p'). array_from (parse_expression n) (parse_array n) done tok p'

    pub parse_hash : ℕ → List Sexp → Parser → Parse Sexp
    parse_hash zero done p = out_of_fuel
    parse_hash (suc n) done p =
        peek p >>= λ (tok, p'). hash_from (parse_expression n) (parse_hash n) done tok p'

  -- The loop of `ParseTokens`: expressions up to the end of the input.
  unfoldable pub parse_tokens : ℕ → Parser → Parse (List Sexp)
  unfolding parse_expression
  parse_tokens zero p = out_of_fuel
  parse_tokens (suc n) p = parse_expression (suc n) p >>= λ (expr, p').
      elim (is_sentinel end expr) [
        | true ↦ ok ([], p')
        | false ↦ parse_tokens n p' >>= λ (exprs, p''). ok (expr ∷ exprs, p'')
      ]
