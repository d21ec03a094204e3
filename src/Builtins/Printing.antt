-- ===== src/Builtins/Printing.antt =====
-- `SexpString` of expressions.go, and `StringifyFunction`. A hash leads to its table, and a table
-- can hold itself, so that the printer recurs on fuel. Go prints the buckets of a table in any
-- order; here it is that of the list.
use glisp.Prelude.{
  ℕ, zero, suc, ◌==◌, ℤ, pos, negsuc, true, false, Bytes, codes, List, [], ◌∷◌, ◌++◌, if◌then◌else◌,
  Outcome, ok, err, panic, out_of_fuel, ◌>>=◌, wrong_nargs, none, some, get_elem?,
}
use mathlib.Core.List.{reverse}
use glisp.Sexp.{
  Sexp, Sentinel, sentinel, null, end, marker, pair, array, hash, int, bool, float, char, str, bin,
  event, symbol, func, stackmark, foreign, function_name, to_list,
}
use glisp.Hash.{Hash, Bucket}
use glisp.Generator.{itoa_digits}

-- What `strconv` prints: a quoted text, a quoted rune, a float in the format `g` with 5 digits; and
-- the texts of the values of other packages.
pub record Formats : Type 0 where
  pub quote_text : Bytes → Bytes
  pub quote_rune : ℤ → Bytes
  pub format_float : ℕ → Bytes
  pub foreign_text : ℕ → Bytes

-- `strconv.Itoa`
unfoldable pub itoa : ℤ → Bytes
unfolding itoa_digits
itoa (pos n) = itoa_digits 20 n []
itoa (negsuc n) = b'-' ∷ itoa_digits 20 (suc n) []

-- `strings.Trim(s, "'")`
unfoldable pub trim_left : Bytes → Bytes
trim_left [] = []
trim_left (c ∷ cs) = let rest = trim_left cs in if c == b'\'' then rest else c ∷ cs

unfoldable pub trim_quotes : Bytes → Bytes
unfolding trim_left
trim_quotes s = reverse (trim_left (reverse (trim_left s)))

unfoldable pub bytes_behind : ℕ → Bytes → Bytes
unfolding itoa
bytes_behind c [] = itoa (pos c)
bytes_behind c (d ∷ ds) = itoa (pos c) ++ b',' ∷ bytes_behind d ds

unfoldable pub data_string : Bytes → Bytes
unfolding bytes_behind
data_string [] = codes "<>"
data_string (c ∷ cs) = codes "<" ++ bytes_behind c cs ++ codes ">"

abbrev sentinel_string : Sentinel → Bytes
sentinel_string null = codes "()"
sentinel_string end = codes "End"
sentinel_string marker = codes "Marker"

module _ (print : Sexp → Outcome Bytes) where
  -- What follows the first value of a chain of pairs.
  unfoldable pub tail_string : Sexp → Outcome Bytes
  tail_string (pair h t) =
      print h >>= λ head. tail_string t >>= λ tail. ok (codes " " ++ head ++ tail)
  tail_string (sentinel null) = ok (codes ")")
  tail_string e = print e >>= λ last. ok (codes " . " ++ last ++ codes ")")

  unfoldable pub items_string : List Sexp → Outcome Bytes
  items_string [] = ok (codes "]")
  items_string (e ∷ es) =
      print e >>= λ head. items_string es >>= λ tail. ok (codes " " ++ head ++ tail)

  unfoldable pub array_string : List Sexp → Outcome Bytes
  unfolding items_string
  array_string [] = ok (codes "[]")
  array_string (e ∷ es) =
      print e >>= λ head. items_string es >>= λ tail. ok (codes "[" ++ head ++ tail)

  unfoldable pub bucket_string : Bucket → Outcome Bytes
  bucket_string [] = ok []
  bucket_string ((key, val) ∷ rest) = print key >>= λ head. print val >>= λ tail.
      bucket_string rest >>= λ more. ok (head ++ codes " " ++ tail ++ codes " " ++ more)

  unfoldable pub buckets_string : List (ℤ × Bucket) → Outcome Bytes
  unfolding bucket_string
  buckets_string [] = ok []
  buckets_string ((_, arr) ∷ rest) =
      bucket_string arr >>= λ s. buckets_string rest >>= λ more. ok (s ++ more)

-- The last blank goes.
abbrev without_last : Bytes → Bytes
without_last [] = []
without_last (c ∷ []) = []
without_last (c ∷ d ∷ cs) = c ∷ without_last (d ∷ cs)

unfoldable pub hash_string : (Sexp → Outcome Bytes) → Hash → Outcome Bytes
unfolding buckets_string
hash_string print h =
    buckets_string print h.buckets >>= λ s. ok (codes "{" ++ without_last s ++ codes "}")

module _ (formats : Formats) (hashes : List Hash) where
  unfoldable pub sexp_string : ℕ → Sexp → Outcome Bytes
  unfolding itoa trim_quotes data_string tail_string array_string hash_string
  sexp_string zero e = out_of_fuel
  sexp_string (suc fuel) (sentinel s) = ok (sentinel_string s)
  sexp_string (suc fuel) (pair h t) = sexp_string fuel h >>= λ head.
      tail_string (sexp_string fuel) t >>= λ tail. ok (codes "(" ++ head ++ tail)
  sexp_string (suc fuel) (array es) = array_string (sexp_string fuel) (to_list es)
  sexp_string (suc fuel) (hash r) = elim (get_elem? hashes r) [
    | none ↦ panic
    | some h ↦ hash_string (sexp_string fuel) h
  ]
  sexp_string (suc fuel) (int i) = ok (itoa i)
  sexp_string (suc fuel) (bool true) = ok (codes "true")
  sexp_string (suc fuel) (bool false) = ok (codes "false")
  sexp_string (suc fuel) (float bits) = ok (formats.format_float bits)
  sexp_string (suc fuel) (char c) = ok (codes "#" ++ trim_quotes (formats.quote_rune c))
  sexp_string (suc fuel) (str s) = ok (formats.quote_text s)
  sexp_string (suc fuel) (bin d) = ok (data_string d)
  sexp_string (suc fuel) (event i) = ok (codes "(event " ++ itoa i ++ codes ")")
  sexp_string (suc fuel) (symbol s) = ok s.name
  sexp_string (suc fuel) (func f) = ok (codes "fn [" ++ function_name f ++ codes "]")
  sexp_string (suc fuel) (stackmark s) = ok (codes "stackmark " ++ s.name)
  sexp_string (suc fuel) (foreign n) = ok (formats.foreign_text n)

  unfoldable pub stringify_function : ℕ → List Sexp → Outcome Sexp
  unfolding sexp_string
  stringify_function fuel (e ∷ []) = sexp_string fuel e >>= λ s. ok (str s)
  stringify_function fuel _ = err wrong_nargs
