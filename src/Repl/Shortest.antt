-- ===== src/Repl/Shortest.antt =====
-- What `getExpression` reads.
use glisp.Prelude.{
  ℕ, zero, suc, ◌<◌, ◌≡◌, refl, sym, ap, ◌∙◌, true, false, Bytes, codes, List, [], ◌∷◌, ◌++◌, none,
  some, length, take, Bool-cases, inl, inr, arith,
}
use mathlib.Core.Path.{subst}
use glisp.Repl.Reading.{is_balanced, read_more, get_expression}

-- Lines put together.
abbrev pub joined : Bytes → List Bytes → Bytes
joined line [] = line
joined line (next ∷ lines) = joined (line ++ codes "\n" ++ next) lines

-- `taken` are the lines behind the first that belong to the expression.
pub record IsShortest (line : Bytes) (lines : List Bytes) (r : Bytes × List Bytes) : Type 0 where
  pub taken : List Bytes
  pub split : lines ≡ taken ++ r.1
  pub text : r.0 ≡ joined line taken
  pub balanced : is_balanced r.0 ≡ true
  pub shortest : (k : ℕ) → k < length taken → is_balanced (joined line (take k taken)) ≡ false

first-IsShortest :
    (line : Bytes) (lines : List Bytes)
    → is_balanced line ≡ true
    → IsShortest line lines (line, lines)
first-IsShortest line lines e = record {
  taken = [];
  split = refl;
  text = refl;
  balanced = e;
  shortest = λ k h. absurd (omega arith);
}

next-IsShortest :
    (line next : Bytes) (lines : List Bytes) (r : Bytes × List Bytes)
    → is_balanced line ≡ false
    → IsShortest (line ++ codes "\n" ++ next) lines r
    → IsShortest line (next ∷ lines) r
next-IsShortest line next lines r e h = record {
  taken = next ∷ h.taken;
  split = ap (◌∷◌ next) h.split;
  text = h.text;
  balanced = h.balanced;
  shortest = λ k low. go k low;
}
  where
    go :
        (k : ℕ)
        → k < length (next ∷ h.taken)
        → is_balanced (joined line (take k (next ∷ h.taken))) ≡ false
    go zero low = e
    go (suc k) low = h.shortest k (omega arith)

read_more-IsShortest :
    (line : Bytes) (lines : List Bytes) (r : Bytes × List Bytes)
    → read_more line lines ≡ some r
    → IsShortest line lines r
unfolding read_more
read_more-IsShortest line [] r h = elim (Bool-cases (is_balanced line)) [
  | inl e ↦
      let front : read_more line [] ≡ some (line, []) = rw (read_more, e) refl in
      let same : (line, []) ≡ r = cc (front, h) in
      subst (IsShortest line []) same (first-IsShortest line [] e)
  | inr e ↦
      let missing : read_more line [] ≡ none = rw (read_more, e) refl in absurd (cc (missing, h))
]
read_more-IsShortest line (next ∷ lines) r h = elim (Bool-cases (is_balanced line)) [
  | inl e ↦
      let front : read_more line (next ∷ lines) ≡ some (line, next ∷ lines) =
        rw (read_more, e) refl in
      let same : (line, next ∷ lines) ≡ r = cc (front, h) in
      subst (IsShortest line (next ∷ lines)) same (first-IsShortest line (next ∷ lines) e)
  | inr e ↦
      let deeper = read_more-IsShortest (line ++ codes "\n" ++ next) lines r in
      let go_on : read_more line (next ∷ lines) ≡ read_more (line ++ codes "\n" ++ next) lines =
        rw (read_more, e) refl in
      next-IsShortest line next lines r e (deeper (sym go_on ∙ h))
]

-- Where the input gives an expression, it is the first line with as many of the next lines as it
-- takes, joined by newlines, until it is balanced, and no fewer lines are; the lines behind them
-- are left.
pub get_expression-IsShortest :
    (line : Bytes) (lines : List Bytes) (r : Bytes × List Bytes)
    → get_expression (line ∷ lines) ≡ some r
    → IsShortest line lines r
unfolding get_expression
get_expression-IsShortest line lines r h = read_more-IsShortest line lines r h
