-- ===== src/Loading/Files.antt =====
-- functions.go: `SourceFileFunction`, with `SourceFile` of environment.go. A file is the stream of its
-- runes, or cannot be opened.
use glisp.Prelude.{
  ℕ, Bytes, List, [], ◌∷◌, Option, none, some, Outcome, ok, err, panic, out_of_fuel, ◌>>=◌,
  wrong_nargs, cannot_open, not_a_source,
}
use glisp.Sexp.{Sexp, Items, sexp_null, sentinel, null, pair, array, str, nil, cons}
use glisp.Numbers.{Floats}
use glisp.Lexer.{Runes, new_lexer_from_stream}
use glisp.Parser.{parse_tokens}
use glisp.Vm.{Host}
use glisp.Generator.{FileParser}
use glisp.Loading.State.{Glisp}
use glisp.Loading.Load.{source_stream}

module _ (f : Floats) (host : Host) (parse_file : FileParser) (parse_float : Runes → Option ℕ)
    (files : Bytes → Option Runes) (fuel : ℕ) where
  unfoldable pub source_file : Bytes → Glisp → Outcome Glisp
  unfolding source_stream
  source_file name g = elim (files name) [
    | none ↦ err cannot_open
    | some stream ↦ source_stream f host parse_file parse_float fuel stream g
  ]

  -- `sourceItem`. Its loop over a list fails a type assertion where the list does not end.
  unfoldable mutual
    unfolding source_file

    pub source_item : Sexp → Glisp → Outcome Glisp
    source_item (array es) g = source_items es g
    source_item (pair h t) g = source_item h g >>= λ g'. source_tail t g'
    source_item (str name) g = source_file name g
    source_item _ g = err not_a_source

    pub source_items : Items → Glisp → Outcome Glisp
    source_items nil g = ok g
    source_items (cons e es) g = source_item e g >>= λ g'. source_items es g'

    pub source_tail : Sexp → Glisp → Outcome Glisp
    source_tail (sentinel null) g = ok g
    source_tail (pair h t) g = source_item h g >>= λ g'. source_tail t g'
    source_tail _ g = panic

  unfoldable pub source_all : List Sexp → Glisp → Outcome Glisp
  unfolding source_item
  source_all [] g = ok g
  source_all (e ∷ es) g = source_item e g >>= λ g'. source_all es g'

  unfoldable pub source_file_function : List Sexp → Glisp → Outcome (Sexp × Glisp)
  unfolding source_all
  source_file_function [] g = err wrong_nargs
  source_file_function (e ∷ es) g = source_all (e ∷ es) g >>= λ g'. ok (sexp_null, g')

-- `ParseFile`, as the generator takes it. The symbols that a failed parse has made are lost.
unfoldable pub parse_file : (Runes → Option ℕ) → (Bytes → Option Runes) → ℕ → FileParser
unfolding parse_tokens new_lexer_from_stream
parse_file parse_float files fuel name symbols = elim (files name) [
  | none ↦ (symbols, err cannot_open)
  | some stream ↦
      elim (parse_tokens parse_float fuel
        (record { lexer = new_lexer_from_stream stream; symbols = symbols })) [
          | ok (exprs, p) ↦ (p.symbols, ok exprs)
          | err why ↦ (symbols, err why)
          | panic ↦ (symbols, panic)
          | out_of_fuel ↦ (symbols, out_of_fuel)
        ]
]
