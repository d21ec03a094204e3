-- ===== src/Generator/Includes.antt =====
-- `GenerateInclude` and `GenerateImport`. Reading and parsing a file is a parameter: it gives the
-- symbol table that it leaves, and the expressions or the error.
use mathlib.Core.List.{reverse}
use glisp.Prelude.{
  ◌==◌, Bool, true, false, Bytes, bytes_eq, codes, List, [], ◌∷◌, some, if◌then◌else◌, Outcome, ok,
  err, panic, out_of_fuel, wrong_nargs, include_expected, import_expected,
}
use glisp.Sexp.{Sexp, sentinel, null, array, pair, str, Items, nil, cons}
use glisp.Parser.{Symbols}
use glisp.Generator.State.{Gens, done, fail, ◌>>>◌}
use glisp.Generator.Forms.{generate_begin}

abbrev pub FileParser : Type 0
FileParser = Bytes → Symbols → Symbols × Outcome (List Sexp)

-- Leading slashes off, and what stands before the first slash.
unfoldable pub trim_slashes : Bytes → Bytes
trim_slashes [] = []
trim_slashes (c ∷ cs) = if c == b'/' then trim_slashes cs else c ∷ cs

unfoldable pub until_slash : Bytes → Bytes
until_slash [] = []
until_slash (c ∷ cs) = if c == b'/' then [] else c ∷ until_slash cs

abbrev or_root : Bytes → Bytes
or_root [] = codes "/"
or_root cs = cs

-- `filepath.Base`: the last element of a path.
unfoldable pub base_name : Bytes → Bytes
unfolding trim_slashes until_slash
base_name [] = codes "."
base_name (c ∷ cs) = or_root (reverse (until_slash (trim_slashes (reverse (c ∷ cs)))))

unfoldable pub imported : Bytes → List Bytes → Bool
imported name [] = false
imported name (x ∷ xs) = if bytes_eq x name then true else imported name xs

module _ (parse_file : FileParser) (generate : Sexp → Gens) where
  -- The case of a string.
  unfoldable pub include_file : Bytes → Gens
  unfolding generate_begin
  include_file name gen =
      let (symbols, r) = parse_file name gen.symbols in
      let gen' = record gen { symbols = symbols } in
      elim r [
        | ok exps ↦ generate_begin generate exps gen'
        | err x ↦ ok (gen', some x)
        | panic ↦ panic
        | out_of_fuel ↦ out_of_fuel
      ]

  -- `sourceItem`. Its loop over a list fails a type assertion where the list does not end.
  unfoldable mutual
    unfolding include_file

    pub source_item : Sexp → Gens
    source_item (array es) = source_items es
    source_item (pair h t) = source_item h >>> source_tail t
    source_item (str name) = include_file name
    source_item _ = fail include_expected

    pub source_items : Items → Gens
    source_items nil = done
    source_items (cons e es) = source_item e >>> source_items es

    pub source_tail : Sexp → Gens
    source_tail (sentinel null) = done
    source_tail (pair h t) = source_item h >>> source_tail t
    source_tail _ = λ _. panic

  unfoldable pub include_all : List Sexp → Gens
  unfolding source_item
  include_all [] = done
  include_all (e ∷ es) = source_item e >>> include_all es

  unfoldable pub generate_include : List Sexp → Gens
  unfolding include_all
  generate_include [] = fail wrong_nargs
  generate_include (e ∷ es) = include_all (e ∷ es)

  -- A file is imported once; that is noted before it is read.
  unfoldable pub generate_import : List Sexp → Gens
  unfolding imported base_name generate_include
  generate_import [] gen = fail wrong_nargs gen
  generate_import (str name ∷ es) gen =
      let iname = base_name name in
      if imported iname gen.imports
      then done gen
      else generate_include (str name ∷ es) (record gen { imports = iname ∷ gen.imports })
  generate_import (_ ∷ _) gen = fail import_expected gen
