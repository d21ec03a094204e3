-- ===== src/Parser/Numerals.antt =====
-- `strconv.ParseInt` at the size of an int, on the texts that the lexer takes for integers, and
-- `MakeSymbol` of environment.go.
use glisp.Prelude.{
  ℕ, ◌+◌, ◌-◌, ◌*◌, ◌^◌, ltb, leb, ◌==◌, ℤ, pos, sub_ℕ, Bytes, bytes_eq, List, [], ◌∷◌, Option,
  none, some, if◌then◌else◌, Outcome, ok, err, bad_number,
}
use glisp.Sexp.{Symbol}
use glisp.Lexer.{Runes, is_digit}

-- The value of a digit in the bases up to 16.
unfoldable pub digit_value : ℕ → ℕ
digit_value c = if is_digit c then c - b'0' else if leb b'a' c then c - b'a' + 10 else c - b'A' + 10

unfoldable pub digits_value : ℕ → ℕ → Runes → ℕ
unfolding digit_value
digits_value base acc [] = acc
digits_value base acc (c ∷ cs) = digits_value base (acc * base + digit_value c) cs

-- A value out of the range of 64 bits is an error.
unfoldable pub parse_int : ℕ → Runes → Outcome ℤ
unfolding digits_value
parse_int base [] = err bad_number
parse_int base (c ∷ cs) =
    if c == b'-'
    then (let n = digits_value base 0 cs in
        if leb n (2 ^ 63) then ok (sub_ℕ 0 n) else err bad_number)
    else (let n = digits_value base 0 (c ∷ cs) in
        if ltb n (2 ^ 63) then ok (pos n) else err bad_number)

-- `symtable` and `nextsymbol`.
pub record Symbols : Type 0 where
  pub symtable : List (Bytes × ℕ)
  pub nextsymbol : ℕ

unfoldable pub lookup : Bytes → List (Bytes × ℕ) → Option ℕ
lookup name [] = none
lookup name ((key, n) ∷ rest) = if bytes_eq key name then some n else lookup name rest

abbrev pub symbol_of : Bytes → ℕ → Symbol
symbol_of s n = record { name = s; number = n }

unfoldable pub make_symbol : Symbols → Bytes → Symbol × Symbols
unfolding lookup
make_symbol t s = elim (lookup s t.symtable) [
  | some n ↦ (symbol_of s n, t)
  | none ↦ (
    symbol_of s t.nextsymbol,
    record { symtable = (s, t.nextsymbol) ∷ t.symtable; nextsymbol = t.nextsymbol + 1 },
  )
]
