-- ===== src/Builtins/Output.antt =====
-- functions.go: `PrintFunction`, `LogFunction` and `SleepFunction`. A function that prints gives what
-- it prints beside its result; the time that passes is not modelled.
use glisp.Prelude.{
  ℕ, pos, Bytes, codes, bytes_eq, true, false, List, [], ◌∷◌, ◌++◌, if◌then◌else◌, Outcome, ok, err,
  panic, ◌>>=◌, wrong_nargs,
}
use glisp.Sexp.{Sexp, sexp_null, str, int, bool, float, char, bin}
use glisp.Hash.{Hash}
use glisp.Builtins.Printing.{Formats, itoa, sexp_string}

-- The rest of `fmt.Sprint` of a slice of bytes.
unfoldable pub sprint_behind : Bytes → Bytes
unfolding itoa
sprint_behind [] = codes "]"
sprint_behind (c ∷ cs) = codes " " ++ itoa (pos c) ++ sprint_behind cs

unfoldable pub sprint_bytes : Bytes → Bytes
unfolding itoa sprint_behind
sprint_bytes [] = codes "[]"
sprint_bytes (c ∷ cs) = codes "[" ++ itoa (pos c) ++ sprint_behind cs

-- `sprint_float` is `fmt.Sprint` of a float.
module _ (formats : Formats) (sprint_float : ℕ → Bytes) (hashes : List Hash) (fuel : ℕ) where
  -- `asStr`
  unfoldable pub as_str : Sexp → Outcome Bytes
  unfolding itoa sprint_bytes sexp_string
  as_str (str s) = ok s
  as_str (int i) = ok (itoa i)
  as_str (bool true) = ok (codes "true")
  as_str (bool false) = ok (codes "false")
  as_str (float bits) = ok (sprint_float bits)
  as_str (char c) = ok (itoa c)
  as_str (bin d) = ok (sprint_bytes d)
  as_str e = sexp_string formats hashes fuel e

  unfoldable pub printed_behind : Bytes → List Sexp → Outcome Bytes
  unfolding as_str
  printed_behind pad [] = ok []
  printed_behind pad (e ∷ es) =
      as_str e >>= λ s. printed_behind pad es >>= λ more. ok (pad ++ s ++ more)

  unfoldable pub print_function : Bytes → List Sexp → Outcome (Bytes × Sexp)
  unfolding as_str printed_behind
  print_function name [] = err wrong_nargs
  print_function name (e ∷ es) =
      let newline = bytes_eq name (codes "println") in
      as_str e >>= λ s. printed_behind (if newline then codes " " else []) es >>= λ more.
      ok (s ++ more ++ (if newline then codes "\n" else []), sexp_null)

  -- `LogFunction` writes a text as it is, and `SexpString` of the others.
  unfoldable pub logged : Sexp → Outcome Bytes
  unfolding sexp_string
  logged (str s) = ok s
  logged e = sexp_string formats hashes fuel e

  unfoldable pub logged_behind : List Sexp → Outcome Bytes
  unfolding logged
  logged_behind [] = ok []
  logged_behind (e ∷ es) =
      logged e >>= λ s. logged_behind es >>= λ more. ok (codes " " ++ s ++ more)

  unfoldable pub log_function : List Sexp → Outcome (Bytes × Sexp)
  unfolding logged logged_behind
  log_function [] = err wrong_nargs
  log_function (e ∷ es) = logged e >>= λ s. logged_behind es >>= λ more. ok (s ++ more, sexp_null)

unfoldable pub sleep_function : List Sexp → Outcome Sexp
sleep_function (int ms ∷ []) = ok (int ms)
sleep_function (_ ∷ []) = panic
sleep_function _ = err wrong_nargs
