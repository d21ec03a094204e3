-- ===== src/Repl/Reading.antt =====
-- repl/main.go: `isBalanced`, `getExpression`, `processDumpCommand` and the hooks that count calls.
-- The input is the list of its lines; it ends in an error.
use glisp.Prelude.{
  ℕ, suc, ℤ, pos, negsuc, ◌+ℤ◌, eq_ℤ, ◌==◌, Bool, ◌&&◌, Bytes, bytes_eq, codes, List, [], ◌∷◌, ◌++◌,
  Option, none, some, if◌then◌else◌, Error, Outcome, ok, ◌>>=◌,
}
use glisp.Sexp.{Sexp}
use glisp.Lexer.{Runes}
use glisp.Builtins.{decode_runes}
use glisp.Loading.{Glisp}
use glisp.Debug.{dump_environment, dump_function_by_name}

-- What a rune adds to the count of open parentheses, and to that of open squares.
abbrev change : ℕ → ℕ → ℕ → ℤ
change opening closing c = if c == opening then pos 1 else if c == closing then negsuc 0 else pos 0

unfoldable pub balance : ℤ → ℤ → Runes → Bool
unfolding ◌+ℤ◌
balance parens squares [] = eq_ℤ parens (pos 0) && eq_ℤ squares (pos 0)
balance parens squares (c ∷ cs) =
    balance (parens +ℤ change b'(' b')' c) (squares +ℤ change b'[' b']' c) cs

unfoldable pub is_balanced : Bytes → Bool
unfolding balance decode_runes
is_balanced str = balance (pos 0) (pos 0) (decode_runes str)

-- The loop of `getExpression`: the expression, and the lines behind it.
unfoldable pub read_more : Bytes → List Bytes → Option (Bytes × List Bytes)
read_more line [] = if is_balanced line then some (line, []) else none
read_more line (next ∷ lines) =
    let rest = read_more (line ++ codes "\n" ++ next) lines in
    if is_balanced line then some (line, next ∷ lines) else rest

unfoldable pub get_expression : List Bytes → Option (Bytes × List Bytes)
unfolding read_more
get_expression [] = none
get_expression (line ∷ lines) = read_more line lines

-- What is printed, beside the interpreter; a name that is not found is made a symbol.
unfoldable pub process_dump_command :
    (Sexp → Outcome Bytes) → (Error → Bytes) → Glisp → List Bytes → Outcome (Bytes × Glisp)
unfolding dump_environment dump_function_by_name
process_dump_command print error_text g [] =
    dump_environment print error_text g.env >>= λ s. ok (s, g)
process_dump_command print error_text g (name ∷ _) = dump_function_by_name print error_text name g

-- `precounts[name] += 1`
unfoldable pub count_call : Bytes → List (Bytes × ℕ) → List (Bytes × ℕ)
count_call name [] = (name, 1) ∷ []
count_call name ((key, n) ∷ counts) =
    let rest = count_call name counts in
    if bytes_eq key name then (key, suc n) ∷ counts else (key, n) ∷ rest
