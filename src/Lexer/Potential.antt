-- ===== src/Lexer/Potential.antt =====
-- A bound on the tokens that can still come, at a look and at a token that is taken.
use glisp.Prelude.{
  ℕ, ◌+◌, ◌*◌, ◌≤◌, Bool, true, false, not, ◌&&◌, List, [], ◌∷◌, length, drop, if◌then◌else◌,
  Outcome, ok, err, panic, out_of_fuel, ◌>>=◌, ◌≡◌, refl, ap, ◌∙◌, arith, Bool-cases, inl, inr, ◌⊎◌,
}
use glisp.Lexer.Tokens.{Runes, Token, mark, end_t}
use glisp.Lexer.Machine.{
  Lexer, buffered, dump_buffer, lex_next_rune, peek_end, read_runes, peek_next_token, is_end,
  get_next_token,
}
use glisp.Lexer.Progress.{held, Grows, Gives, Gives-bind, Gives-if, lex_in-Gives, dump_buffer-held}

abbrev pub bit : Bool → ℕ
bit b = if b then 1 else 0

-- Each rune can end an atom and be a token.
abbrev pub potential : Lexer → ℕ
potential l = if l.finished then 0 else 2 * length l.stream + held l + 1

abbrev pub live : List Token → Bool
live [] = false
live (tok ∷ _) = not (is_end tok.typ)

-- A token that is not the end waits.
abbrev pub busy : Lexer → Bool
busy l = not l.finished && live l.tokens

-- A look at the next token: if that is not the end, it waits, or the input is finished.
abbrev pub Peeked : ℕ → Token × Lexer → Type 0
Peeked w (tok, l) = (potential l ≤ w) × ((l.finished ≡ true) ⊎ (busy l ≡ not (is_end tok.typ)))

peek_end-Gives : (w : ℕ) (l : Lexer) → l.finished ≡ true → Gives (Peeked w) (peek_end l)
unfolding peek_end
peek_end-Gives w l fin =
    Gives-if _ (buffered l) _ _ (dumped (dump_buffer l) refl) (rw fin (omega arith, inl refl))
  where
    shown :
        (l' : Lexer) (toks : List Token)
        → l'.finished ≡ true
        → Gives (Peeked w) (elim toks [ [] ↦ panic | tok ∷ _ ↦ ok (tok, l') ])
    shown l' [] f = tt
    shown l' (tok ∷ _) f = rw f (omega arith, inl refl)

    dumped :
        (o : Outcome Lexer)
        → dump_buffer l ≡ o
        → Gives (Peeked w) (elim o [
          | ok l' ↦ elim l'.tokens [ [] ↦ panic | tok ∷ _ ↦ ok (tok, l') ]
          | _ ↦ elim l.tokens [ [] ↦ panic | tok ∷ _ ↦ ok (tok, l) ]
        ])
    dumped (ok l') h = shown l' l'.tokens ((dump_buffer-held l h).0 ∙ fin)
    dumped (err _) h = shown l l.tokens fin
    dumped panic h = shown l l.tokens fin
    dumped out_of_fuel h = shown l l.tokens fin

read_runes-Gives :
    (stream : Runes) (l : Lexer) (toks : List Token)
    → l.tokens ≡ toks
    → l.finished ≡ false
    → Gives (Peeked (2 * length stream + held l + 1)) (read_runes stream l toks)
unfolding read_runes lex_next_rune
read_runes-Gives stream l (tok ∷ toks) st fin = rw (fin, st) (omega arith, inr refl)
read_runes-Gives [] l [] st fin = peek_end-Gives _ (record l { stream = []; finished = true }) refl
read_runes-Gives (r ∷ rest) l [] st fin =
    Gives-bind (Grows l) _ (lex_next_rune l r) _ (lex_in-Gives l.state l r)
      λ l' (same_fin, _, more).
        weaken (read_runes rest l' l'.tokens) (omega (arith, more))
          (read_runes-Gives rest l' l'.tokens refl (same_fin ∙ fin))
  where
    weaken :
        {w w' : ℕ} (m : Outcome (Token × Lexer)) → w ≤ w' → Gives (Peeked w) m → Gives (Peeked w') m
    weaken (ok (tok, l)) le (h, k) = (omega (arith, h, le), k)
    weaken (err _) le h = tt
    weaken panic le h = tt
    weaken out_of_fuel le h = h

-- The bound, by the parts that it depends on.
abbrev bound_of : Bool → ℕ → ℕ
bound_of b n = if b then 0 else n

peek_at :
    (b : Bool) (l : Lexer)
    → l.finished ≡ b
    → Gives
        (Peeked (bound_of b (2 * length l.stream + held l + 1)))
        (if b then ok (mark end_t, l) else read_runes l.stream l l.tokens)
peek_at true l fin = (rw fin (omega arith), inl fin)
peek_at false l fin = read_runes-Gives l.stream l l.tokens refl fin

pub peek_next_token-Gives : (l : Lexer) → Gives (Peeked (potential l)) (peek_next_token l)
unfolding peek_next_token
peek_next_token-Gives l = peek_at l.finished l refl

-- A token that was taken: the bound goes down, if it is not the end, or if one waited.
abbrev pub Taken : ℕ → Bool → Token × Lexer → Type 0
Taken w was_busy (tok, l') =
    (potential l' + bit was_busy ≤ w) × (potential l' + bit (not (is_end tok.typ)) ≤ w)

bound_of-drop :
    (b : Bool) (toks : List Token) (s k : ℕ)
    → not b && live toks ≡ true
    → bound_of b (s + (length (drop 1 toks) + k) + 1) + 1 ≤ bound_of b (s + (length toks + k) + 1)
bound_of-drop true toks s k h = absurd (cc h)
bound_of-drop false [] s k h = absurd (cc h)
bound_of-drop false (t ∷ toks) s k h = omega arith

-- What `GetNextToken` does with the token that it saw.
abbrev took : Token → Lexer → Token × Lexer
took tok l =
    if is_end tok.typ then (mark end_t, l) else (tok, record l { tokens = drop 1 l.tokens })

took_idle :
    (w : ℕ) (tok : Token) (l : Lexer) → Peeked (w + 1) (tok, l) → Taken (w + 1) false (took tok l)
took_idle w tok l (less, shape) = elim (Bool-cases (is_end tok.typ)) [
  | inl is ↦ rw is (omega (arith, less), omega (arith, less))
  | inr no_end ↦ rw no_end (live_case no_end shape)
]
  where
    live_case :
        is_end tok.typ ≡ false
        → (l.finished ≡ true) ⊎ (busy l ≡ not (is_end tok.typ))
        → Taken (w + 1) false (tok, record l { tokens = drop 1 l.tokens })
    live_case no_end (inl fin) = rw (fin, no_end) (omega arith, omega arith)
    live_case no_end (inr b) =
        let less' =
          bound_of-drop l.finished l.tokens (2 * length l.stream) (if buffered l then 1 else 0)
            (b ∙ ap not no_end) in
        rw no_end (omega (arith, less', less), omega (arith, less', less))

took_waiting :
    (l : Lexer) (tok : Token) (toks : List Token)
    → l.finished ≡ false
    → l.tokens ≡ tok ∷ toks
    → Taken (2 * length l.stream + held l + 1) (not (is_end tok.typ)) (took tok l)
took_waiting l tok toks fin st = elim (Bool-cases (is_end tok.typ)) [
  | inl is ↦ rw (is, fin) (omega arith, omega arith)
  | inr no_end ↦ rw no_end (dropped no_end)
]
  where
    dropped :
        is_end tok.typ ≡ false
        → Taken (2 * length l.stream + held l + 1) true (tok, record l { tokens = drop 1 l.tokens })
    dropped no_end =
        let less : potential (record l { tokens = drop 1 l.tokens }) + 1
            ≤ 2 * length l.stream + held l + 1 =
          rw (fin, st) (omega arith) in
        rw no_end (omega (arith, less), omega (arith, less))

get_at :
    (b : Bool) (l : Lexer) (toks : List Token)
    → l.finished ≡ b
    → l.tokens ≡ toks
    → Gives (Taken (bound_of b (2 * length l.stream + held l + 1)) (not b && live toks)) (
        (if b then ok (mark end_t, l) else read_runes l.stream l toks) >>= λ (tok, l').
        ok (took tok l'))
unfolding read_runes
get_at true l toks fin st = rw fin (omega arith, omega arith)
get_at false l [] fin st =
    Gives-bind (Peeked (2 * length l.stream + held l + 1)) _ (read_runes l.stream l []) _
      (read_runes-Gives l.stream l [] st fin)
      λ (tok, l') peeked. took_idle (2 * length l.stream + held l) tok l' peeked
get_at false l (tok ∷ toks) fin st = took_waiting l tok toks fin st

-- `GetNextToken` never grows the bound. It goes down where the token is not the end, and where a
-- token was waiting.
pub get_next_token-Gives : (l : Lexer) → Gives (Taken (potential l) (busy l)) (get_next_token l)
unfolding get_next_token peek_next_token
get_next_token-Gives l = get_at l.finished l l.tokens refl refl
