-- ===== src/Lexer/Progress.antt =====
-- How many tokens one rune can add.
use glisp.Prelude.{
  ℕ, ◌+◌, ◌≤◌, ◌==◌, Bool, true, false, [], ◌∷◌, ◌++◌, length, length-append, if◌then◌else◌,
  Outcome, ok, err, panic, out_of_fuel, ◌>>=◌, >>=-eq-ok, Error, ◌≡◌, ◌≢◌, refl, arith, Bool-cases,
  inl, inr, bytes_eq, codes,
}
use glisp.Lexer.Tokens.{
  Runes, Token, mark, token, string_t, quote, backtick, tilde, tilde_at, decode_brace, escape_char,
  decode_char, decode_atom, is_nil, is_bool, is_decimal, is_hex, is_oct, is_binary, is_float_text,
  is_symbol_text, is_char_text,
}
use glisp.Lexer.Machine.{
  LexerState, normal, comment, str_lit, str_escaped, unquote, Lexer, buffered, emit, write_rune,
  is_brace, is_space, dump_buffer, dump_string, lex_normal, lex_in,
}

-- The tokens that wait, and one for an atom that is not finished.
abbrev pub held : Lexer → ℕ
held l = length l.tokens + (if buffered l then 1 else 0)

abbrev pub Grows : Lexer → Lexer → Type 0
Grows l l' = (l'.finished ≡ l.finished) × (l'.stream ≡ l.stream) × (held l' ≤ held l + 2)

escape_char-ends : (c : ℕ) → escape_char c ≢ out_of_fuel
unfolding escape_char
escape_char-ends c h = ground arith

pub if-ends :
    {A : Type 0} (b : Bool) (m n : Outcome A)
    → m ≢ out_of_fuel
    → n ≢ out_of_fuel
    → (if b then m else n) ≢ out_of_fuel
if-ends true m n h k = h
if-ends false m n h k = k

pub bind-ends :
    {A B : Type 0} (m : Outcome A) (k : A → Outcome B)
    → m ≢ out_of_fuel
    → ((a : A) → m ≡ ok a → k a ≢ out_of_fuel)
    → (m >>= k) ≢ out_of_fuel
bind-ends (ok a) k h g = g a refl
bind-ends (err e) k h g = λ e. cc e
bind-ends panic k h g = λ e. cc e
bind-ends out_of_fuel k h g = absurd (h refl)

pub err-ends : {A : Type 0} (e : Error) → ◌≢◌ {A = Outcome A} (err e) out_of_fuel
err-ends e h = cc h

pub ok-ends : {A : Type 0} (a : A) → ok a ≢ out_of_fuel
ok-ends a e = cc e

decode_char-ends : (s : Runes) → decode_char s ≢ out_of_fuel
unfolding decode_char
decode_char-ends [] = λ e. cc e
decode_char-ends (_ ∷ []) = λ e. cc e
decode_char-ends (_ ∷ c ∷ []) = λ e. cc e
decode_char-ends (_ ∷ _ ∷ c ∷ []) = bind-ends (escape_char c) _ (escape_char-ends c) λ a h e. cc e
decode_char-ends (_ ∷ _ ∷ _ ∷ _ ∷ _) = λ e. cc e

decode_atom-ends : (s : Runes) → decode_atom s ≢ out_of_fuel
unfolding decode_atom
decode_atom-ends s = if-ends (bytes_eq s (codes ".")) _ _ (ok-ends _) (
    if-ends (is_nil s) _ _ (ok-ends _) (
      if-ends (is_bool s) _ _ (ok-ends _) (
        if-ends (is_decimal s) _ _ (ok-ends _) (
          if-ends (is_hex s) _ _ (ok-ends _) (
            if-ends (is_oct s) _ _ (ok-ends _) (
              if-ends (is_binary s) _ _ (ok-ends _) (
                if-ends (is_float_text s) _ _ (ok-ends _) (
                  if-ends (is_symbol_text s) _ _ (ok-ends _) (
                    if-ends (is_char_text s) _ _
                      (bind-ends (decode_char s) _ (decode_char-ends s) (λ a h. ok-ends _))
                      (err-ends _))))))))))

pub dump_buffer-ends : (l : Lexer) → dump_buffer l ≢ out_of_fuel
unfolding dump_buffer
dump_buffer-ends l =
    if-ends _ _ _ (bind-ends (decode_atom l.buffer) _ (decode_atom-ends l.buffer) (λ a h e. cc e))
      (ok-ends _)

pub dump_buffer-held :
    (l : Lexer) {l' : Lexer}
    → dump_buffer l ≡ ok l'
    → (l'.finished ≡ l.finished)
      × (l'.stream ≡ l.stream)
      × (held l' ≤ held l)
      × (length l'.tokens ≤ held l)
unfolding dump_buffer
dump_buffer-held l {l'} h = elim (Bool-cases (buffered l)) [
  | inl some_buffer ↦
      let (tok, _, made) = >>=-eq-ok (decode_atom l.buffer) _ (rw some_buffer at h) in
      let more : length (l.tokens ++ tok ∷ []) ≤ length l.tokens + 1 =
        omega (arith, length-append l.tokens (tok ∷ [])) in
      let same : record l { buffer = []; tokens = l.tokens ++ tok ∷ [] } ≡ l' = cc made in
      rw (← same, some_buffer) (refl, refl, omega (arith, more), more)
  | inr no_buffer ↦
      let same : l ≡ l' = cc (rw no_buffer at h) in
      rw (← same, no_buffer) (refl, refl, omega arith, omega arith)
]

-- What a result satisfies, if there is one; the fuel does not run out.
abbrev pub Gives : {A : Type 0} → (A → Type 0) → Outcome A → Type 0
Gives P (ok a) = P a
Gives P (err e) = Unit
Gives P panic = Unit
Gives P out_of_fuel = ⊥

pub Gives-intro :
    {A : Type 0} (P : A → Type 0) (m : Outcome A)
    → m ≢ out_of_fuel
    → ((a : A) → m ≡ ok a → P a)
    → Gives P m
Gives-intro P (ok a) h k = k a refl
Gives-intro P (err e) h k = tt
Gives-intro P panic h k = tt
Gives-intro P out_of_fuel h k = absurd (h refl)

pub Gives-bind :
    {A B : Type 0} (P : A → Type 0) (Q : B → Type 0) (m : Outcome A) (k : A → Outcome B)
    → Gives P m
    → ((a : A) → P a → Gives Q (k a))
    → Gives Q (m >>= k)
Gives-bind P Q (ok a) k h g = g a h
Gives-bind P Q (err e) k h g = tt
Gives-bind P Q panic k h g = tt
Gives-bind P Q out_of_fuel k h g = h

pub Gives-if :
    {A : Type 0} (P : A → Type 0) (b : Bool) (m n : Outcome A)
    → Gives P m
    → Gives P n
    → Gives P (if b then m else n)
Gives-if P true m n h k = h
Gives-if P false m n h k = k

dumped :
    (l : Lexer)
    → Gives
        (λ l'.
          (l'.finished ≡ l.finished)
          × (l'.stream ≡ l.stream)
          × (held l' ≤ held l)
          × (length l'.tokens ≤ held l))
        (dump_buffer l)
dumped l = Gives-intro _ (dump_buffer l) (dump_buffer-ends l) λ l' h. dump_buffer-held l h

emit-held : (l : Lexer) (t : Token) → held (emit l t) ≤ held l + 1
emit-held l t = omega (arith, length-append l.tokens (t ∷ []))

write_rune-held : (l : Lexer) (r : ℕ) → held (write_rune l r) ≤ length l.tokens + 1
write_rune-held l r = ground (arith)

tokens-held : (l : Lexer) → length l.tokens ≤ held l
tokens-held l = omega arith

emitted :
    (l l' : Lexer) (t : Token)
    → (l'.finished ≡ l.finished)
      × (l'.stream ≡ l.stream)
      × (held l' ≤ held l)
      × (length l'.tokens ≤ held l)
    → Grows l (emit l' t)
emitted l l' t (fin, str, h, k) = (fin, str, omega (arith, emit-held l' t, h))

spaced : (l : Lexer) (n : ℕ) → Gives (Grows l) (dump_buffer (record l { linenum = n }))
spaced l n =
    Gives-intro (Grows l) (dump_buffer (record l { linenum = n })) (dump_buffer-ends _) λ l' h.
      let (fin, str, less, _) = dump_buffer-held (record l { linenum = n }) h in
      (fin, str, omega (arith, less))

lex_normal-Gives : (l : Lexer) (r : ℕ) → Gives (Grows l) (lex_normal l r)
unfolding lex_normal
lex_normal-Gives l r =
    Gives-if _ (r == b'"') _ _ (Gives-if _ (buffered l) _ _ tt (refl, refl, omega arith)) (
      Gives-if _ (r == b';') _ _ (refl, refl, omega arith)
        (Gives-if _ (r == b'\'') _ _
          (Gives-if _ (buffered l) _ _ tt (refl, refl, omega (arith, emit-held l (mark quote))))
          (Gives-if _ (r == b'`') _ _
            (Gives-if _ (buffered l) _ _ tt
              (refl, refl, omega (arith, emit-held l (mark backtick))))
            (Gives-if _ (r == b'~') _ _ (Gives-if _ (buffered l) _ _ tt (refl, refl, omega arith)) (
              Gives-if _ (is_brace r) _ _
                (Gives-bind _ _ (dump_buffer l) _ (dumped l)
                  λ l' h. emitted l l' (decode_brace r) h)
                (Gives-if _ (is_space r) _ _ (spaced l _)
                  (refl, refl, omega (arith, write_rune-held l r, tokens-held l))))))))

pub lex_in-Gives : (s : LexerState) (l : Lexer) (r : ℕ) → Gives (Grows l) (lex_in s l r)
unfolding lex_in dump_string
lex_in-Gives comment l r = elim (Bool-cases (r == b'\n')) [
  | inl yes_r ↦ rw yes_r (refl, refl, omega arith)
  | inr no_r ↦ rw no_r (refl, refl, omega arith)
]
lex_in-Gives str_lit l r =
    Gives-if _ (r == b'\\') _ _ (refl, refl, omega arith)
      (Gives-if _ (r == b'"') _ _
        (refl, refl, omega (arith, length-append l.tokens (token string_t l.buffer ∷ [])))
        (refl, refl, omega (arith, write_rune-held l r, tokens-held l)))
lex_in-Gives str_escaped l r =
    Gives-bind (λ _. Unit) _ (escape_char r) _ (Gives-intro _ _ (escape_char-ends r) λ _ _. tt)
      λ char _. (refl, refl, omega (arith, write_rune-held l char, tokens-held l))
lex_in-Gives unquote l r = elim (Bool-cases (r == b'@')) [
  | inl yes_r ↦ rw yes_r (refl, refl, omega (arith, emit-held l (mark tilde_at)))
  | inr no_r ↦ rw no_r (
    refl,
    refl,
    omega (
      arith,
      write_rune-held (emit l (mark tilde)) r,
      length-append l.tokens (mark tilde ∷ []),
      tokens-held l,
    ),
  )
]
lex_in-Gives normal l r = lex_normal-Gives l r
