-- ===== src/Loading/Sourcing.antt =====
-- `SourceFileFunction`: the ways to name several files.
use glisp.Prelude.{
  ℕ, Bytes, List, [], ◌∷◌, Option, Outcome, ok, ◌>>=◌, >>=-cong, >>=-ok, ap, ◌≡◌, refl, ◌∙◌,
}
use glisp.Sexp.{Sexp, array, of_list, sexp_null, make_list}
use glisp.Numbers.{Floats}
use glisp.Lexer.{Runes}
use glisp.Vm.{Host}
use glisp.Generator.{FileParser}
use glisp.Loading.State.{Glisp}
use glisp.Loading.Files.{source_item, source_items, source_tail, source_all, source_file_function}

module _ (f : Floats) (host : Host) (parse_file : FileParser) (parse_float : Runes → Option ℕ)
    (files : Bytes → Option Runes) (fuel : ℕ) where
  abbrev item : Sexp → Glisp → Outcome Glisp
  item = source_item f host parse_file parse_float files fuel

  source_items-all :
      (xs : List Sexp) (g : Glisp)
      → source_items f host parse_file parse_float files fuel (of_list xs) g
        ≡ source_all f host parse_file parse_float files fuel xs g
  unfolding source_items source_all
  source_items-all [] g = refl
  source_items-all (x ∷ xs) g = >>=-cong (item x g) _ _ (λ g'. source_items-all xs g')

  source_tail-all :
      (xs : List Sexp) (g : Glisp)
      → source_tail f host parse_file parse_float files fuel (make_list xs) g
        ≡ source_all f host parse_file parse_float files fuel xs g
  unfolding source_tail source_all make_list
  source_tail-all [] g = refl
  source_tail-all (x ∷ xs) g = >>=-cong (item x g) _ _ (λ g'. source_tail-all xs g')

  item-array :
      (xs : List Sexp) (g : Glisp)
      → item (array (of_list xs)) g ≡ source_all f host parse_file parse_float files fuel xs g
  unfolding source_item
  item-array xs g = source_items-all xs g

  item-list :
      (x : Sexp) (xs : List Sexp) (g : Glisp)
      → item (make_list (x ∷ xs)) g ≡ source_all f host parse_file parse_float files fuel (x ∷ xs) g
  unfolding source_item source_all make_list
  item-list x xs g = >>=-cong (item x g) _ _ (λ g'. source_tail-all xs g')

  -- One argument that sources what several do.
  function-one :
      (e x : Sexp) (xs : List Sexp) (g : Glisp)
      → item e g ≡ source_all f host parse_file parse_float files fuel (x ∷ xs) g
      → source_file_function f host parse_file parse_float files fuel (e ∷ []) g
        ≡ source_file_function f host parse_file parse_float files fuel (x ∷ xs) g
  unfolding source_file_function source_all
  function-one e x xs g h =
      ap (λ (m : Outcome Glisp). m >>= λ g'. ok (sexp_null, g')) (>>=-ok (item e g) ∙ h)

  -- To source a list of values that is not empty, or an array of them, is to source the values as
  -- the arguments of one call, in their order: with the same result, or the same failure.
  pub source_item-all :
      (x : Sexp) (xs : List Sexp) (g : Glisp)
      → (source_file_function f host parse_file parse_float files fuel (make_list (x ∷ xs) ∷ []) g
          ≡ source_file_function f host parse_file parse_float files fuel (x ∷ xs) g)
        × (source_file_function f host parse_file parse_float files fuel
              (array (of_list (x ∷ xs)) ∷ [])
              g
            ≡ source_file_function f host parse_file parse_float files fuel (x ∷ xs) g)
  source_item-all x xs g =
      (function-one _ x xs g (item-list x xs g), function-one _ x xs g (item-array (x ∷ xs) g))
